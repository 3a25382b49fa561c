-- ===== src/Backend/Refresh.antt =====
-- internal/server/metadata_backend.go: what the backend learns from the operating system, and the
-- prefetch that this starts.
use net_drive.Prelude.{
  ℕ, Bool, true, false, Option, none, some, List, [], ◌∷◌, ◌++◌, eqb, if◌then◌else◌, not, nat_eq,
  ok, err, ◌&&◌,
}
use net_drive.Prelude.Text.{Text, codes, is_empty, text_geb}
use net_drive.Protocol.{NodeInfo, DirEntry, file, directory}
use net_drive.Backend.Defs.{
  MetadataBackend, WorkspaceProfile, BackendError, not_exist, not_dir, other, FileInfo, Os, M,
  ◌>>=◌, on_option, on_result, ◌>>◌, return, fail, attempt, of_result, get_backend, get_world,
  modify,
}
use net_drive.Backend.Profile.{is_hot_dir, is_small_file_candidate, is_file, contains, to_lower}
use net_drive.Backend.Nodes.{node_by_id, relative, child_path, parent_path, abs_path, ensure_node}
use net_drive.Backend.Cache.{
  cached_node_info, cached_dir_snapshot, cached_small_file_data, is_negative_cached,
  record_negative, clear_negative, store_attr, store_dir_snapshot, store_small_file,
}

unfoldable pub is_not_exist : BackendError → Bool
is_not_exist not_exist = true
is_not_exist _ = false

unfoldable pub is_not_dir : BackendError → Bool
is_not_dir not_dir = true
is_not_dir (other message) = contains (to_lower message) (codes "not a directory")
is_not_dir _ = false

-- sort.Slice by name; the names of a directory are distinct.
unfoldable pub insert_sorted : DirEntry → List DirEntry → List DirEntry
insert_sorted e [] = e ∷ []
insert_sorted e (x ∷ entries) =
    let rest = insert_sorted e entries in
    if text_geb x.name e.name then e ∷ x ∷ entries else x ∷ rest

unfoldable pub sort_by_name : List DirEntry → List DirEntry
unfolding insert_sorted
sort_by_name [] = []
sort_by_name (e ∷ entries) = insert_sorted e (sort_by_name entries)

-- What a prefetch loads; those of high priority are first.
pub data PrefetchJob : Type 0 where
  dir_snapshot : ℕ → PrefetchJob
  small_file : Text → PrefetchJob

module _ {W : Type 0} (os : Os W) where
  -- a change of the backend at the time of the clock
  unfoldable pub modify_now : (MetadataBackend → ℕ → MetadataBackend) → M W (Unit {0})
  modify_now f s = (ok tt, record s { backend = f s.backend (os.now s.world) })

  -- a look at the backend at the time of the clock
  unfoldable pub look : {A : Type 0} → (MetadataBackend → ℕ → A) → M W A
  look f s = (ok (f s.backend (os.now s.world)), s)

  unfoldable pub ensure : Text → ℕ → M W ℕ
  ensure path hint s =
      let (b, id) = ensure_node s.backend path hint in (ok id, record s { backend = b })

  unfoldable pub stat : Text → M W FileInfo
  stat path s = (os.stat s.world (abs_path s.backend path), s)

  -- the parent of a node without a hint
  unfoldable pub resolve_parent : Text → ℕ → ℕ → M W ℕ
  resolve_parent path node_id parent_hint =
      if is_empty path
      then return node_id
      else if eqb parent_hint 0
      then ensure (parent_path path) 1
      else return parent_hint

  -- refreshNodeInfo, after the path was found
  unfoldable pub learn_node : Text → ℕ → FileInfo → M W NodeInfo
  unfolding resolve_parent
  learn_node path parent_hint info = do
    modify (λ b. clear_negative b path)
    node_id ← ensure path parent_hint
    parent_id ← resolve_parent path node_id parent_hint
    let entry : NodeInfo = record {
      node_id = node_id;
      parent_node_id = parent_id;
      name = info.name;
      file_type = if info.is_dir then directory else file;
      size = info.size;
      mode = info.mode;
      mod_time = info.mod_time;
    }
    modify_now (λ b now. store_attr b now path entry)
    return entry

  unfoldable pub refresh_node_info : Text → ℕ → M W NodeInfo
  unfolding learn_node is_not_exist
  refresh_node_info path parent_hint = do
    found ← attempt (stat path)
    on_result found
        (λ e. do
          modify_now (λ b now. if is_not_exist e then record_negative b now path else b)
          fail e)
        (λ info. learn_node path parent_hint info)

  unfoldable pub with_resolved_parent : NodeInfo → Text → ℕ → M W NodeInfo
  unfolding resolve_parent
  with_resolved_parent info path parent_hint = do
    parent_id ← resolve_parent path info.node_id parent_hint
    return (record info { parent_node_id = parent_id })

  -- nodeInfoForSnapshotPath, of a path without a leading `/`
  unfoldable pub node_info_for_snapshot_path : Text → ℕ → M W NodeInfo
  unfolding refresh_node_info with_resolved_parent
  node_info_for_snapshot_path rel_path parent_hint = do
    let path = relative rel_path
    missing ← look (λ b now. is_negative_cached b now path)
    if missing then fail not_exist else do
      cached ← look (λ b now. cached_node_info b now path)
      on_option cached (refresh_node_info path parent_hint)
          (λ info. with_resolved_parent info path parent_hint)

  unfoldable pub snapshot_children : Text → ℕ → List (Text × Bool) → M W (List DirEntry)
  unfolding node_info_for_snapshot_path
  snapshot_children rel_path node_id [] = return []
  snapshot_children rel_path node_id ((name, _) ∷ names) = do
    child ← attempt (node_info_for_snapshot_path (child_path rel_path name) node_id)
    items ← snapshot_children rel_path node_id names
    return (elim child [
      | err e ↦ items
      | ok info ↦
          record {
            node_id = info.node_id;
            name = info.name;
            file_type = info.file_type;
            size = info.size;
            mode = info.mode;
            mod_time = info.mod_time;
          }
          ∷ items
    ])

  unfoldable pub refresh_dir_snapshot : ℕ → M W (List DirEntry)
  unfolding snapshot_children sort_by_name is_not_dir
  refresh_dir_snapshot node_id = do
    b ← get_backend
    rec ← of_result (node_by_id b node_id)
    info ← stat rec.rel_path
    w ← get_world
    if not info.is_dir then fail not_dir else do
      on_result (os.read_dir w (abs_path b rec.rel_path))
          (λ e. fail (if is_not_dir e then not_dir else e))
          (λ names. do
            items ← snapshot_children rec.rel_path node_id names
            modify_now (λ b' now. store_dir_snapshot b' now node_id (sort_by_name items))
            return (sort_by_name items))

  unfoldable pub snapshot_dir : ℕ → M W (List DirEntry)
  unfolding refresh_dir_snapshot
  snapshot_dir node_id = do
    cached ← look (λ b now. cached_dir_snapshot b now node_id)
    on_option cached (refresh_dir_snapshot node_id) (λ entries. return entries)

  -- The attributes that loadSmallFileCache goes by.
  unfoldable pub small_file_info : Text → M W NodeInfo
  unfolding refresh_node_info
  small_file_info path = do
    cached ← look (λ b now. cached_node_info b now path)
    on_option cached (do parent_id ← ensure (parent_path path) 1; refresh_node_info path parent_id)
        (λ info. return info)

  -- loadSmallFileCache; `none` where the file is not one to cache
  unfoldable pub load_small_file_cache : Text → M W (Option Text)
  unfolding small_file_info
  load_small_file_cache path = do
    cached ← look (λ b now. cached_small_file_data b now path)
    on_option cached
        (do
          info ← small_file_info path
          b ← get_backend
          w ← get_world
          if not (is_small_file_candidate b.profile path info) then return none else do
            bytes ← of_result (os.read_file w (abs_path b path))
            modify_now (λ b' now. store_small_file b' now path bytes)
            return (some bytes))
        (λ bytes. return (some bytes))

  unfoldable pub run_prefetch_jobs : List PrefetchJob → M W (Unit {0})
  unfolding snapshot_dir load_small_file_cache
  run_prefetch_jobs [] = return tt
  run_prefetch_jobs (dir_snapshot node_id ∷ jobs) = do
    attempt (snapshot_dir node_id)
    run_prefetch_jobs jobs
  run_prefetch_jobs (small_file path ∷ jobs) = do
    attempt (load_small_file_cache path)
    run_prefetch_jobs jobs

  -- Both jobs have the high priority.
  unfoldable pub warm_jobs : WorkspaceProfile → Text → NodeInfo → List PrefetchJob
  warm_jobs profile path info =
      (if not (is_file info.file_type) && is_hot_dir profile info.name
        then dir_snapshot info.node_id ∷ []
        else [])
      ++ (if is_small_file_candidate profile path info then small_file path ∷ [] else [])

  unfoldable pub maybe_warm_node : Text → NodeInfo → M W (Unit {0})
  unfolding run_prefetch_jobs warm_jobs
  maybe_warm_node path info = do b ← get_backend; run_prefetch_jobs (warm_jobs b.profile path info)

  unfoldable pub node_info_for_path : Text → ℕ → M W NodeInfo
  unfolding node_info_for_snapshot_path maybe_warm_node
  node_info_for_path rel_path parent_hint = do
    info ← node_info_for_snapshot_path rel_path parent_hint
    maybe_warm_node (relative rel_path) info
    return info
