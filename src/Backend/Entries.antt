-- ===== src/Backend/Entries.antt =====
-- internal/server/metadata_backend.go: the start of the backend, its calls on names and
-- directories, and RenamePath.
use net_drive.Prelude.{
  ℕ, Bool, List, [], ◌∷◌, if◌then◌else◌, not, nat_eq, text_eq, Result, ◌&&◌, ◌||◌, ◌*◌,
}
use net_drive.Prelude.Map
use net_drive.Prelude.Text.{Text, codes}
use net_drive.Prelude.Words.{next_u64}
use net_drive.Protocol.{NodeInfo, DirEntry, ReadDirResp}
use net_drive.Directory.{read_page}
use net_drive.Backend.Defs.{
  MetadataBackend, BackendError, not_exist, permission, already_exists, access_denied, other,
  FileInfo, Os, Server, M, ◌>>=◌, on_option, on_result, ◌>>◌, return, fail, attempt, of_result,
  get_backend, modify, call,
}
use net_drive.Backend.Profile.{
  infer_workspace_profile, is_hot_dir, is_small_file_candidate, is_file,
}
use net_drive.Backend.Nodes.{
  node_by_id, child_path, abs_path, is_valid_single_name, move_path_mapping,
}
use net_drive.Backend.Cache.{
  invalidate_entry, remove_cached_dir_snapshot_entry, upsert_cached_dir_snapshot, store_node_info,
  node_info_from_os_info,
}
use net_drive.Backend.Refresh.{
  PrefetchJob, dir_snapshot, small_file, modify_now, ensure, stat, refresh_node_info,
  refresh_dir_snapshot, snapshot_dir, run_prefetch_jobs, node_info_for_path, is_not_exist,
}

-- The backend before its first call of the operating system.
unfoldable pub empty_backend : Text → MetadataBackend
empty_backend root = record {
  root_path = root;
  cache_ttl = 2 * 1_000_000_000;
  next_node_id = 1;
  next_cursor_id = 1000;
  next_handle_id = 2000;
  profile = record { hot_dirs = []; hot_files = []; ignore_dirs = []; small_file_threshold = 0 };
  nodes_by_id = Map.insert Map.empty 1 (record { id = 1; parent_id = 1; rel_path = [] });
  nodes_by_path = Map.insert Map.empty [] 1;
  cursors = Map.empty;
  handles = Map.empty;
  attr_cache = Map.empty;
  negative_cache = Map.empty;
  dir_snapshots = Map.empty;
  small_file_cache = Map.empty;
}

module _ {W : Type 0} (os : Os W) where
  -- The jobs of high priority that prefetchRoot makes of the root's entries.
  unfoldable pub root_jobs : MetadataBackend → List DirEntry → List PrefetchJob
  root_jobs b [] = []
  root_jobs b (e ∷ entries) =
      let rest = root_jobs b entries in
      let info : NodeInfo = record {
        node_id = 0;
        parent_node_id = 0;
        name = e.name;
        file_type = e.file_type;
        size = e.size;
        mode = 0;
        mod_time = [];
      } in
      let files =
        if is_small_file_candidate b.profile e.name info then small_file e.name ∷ rest else rest in
      if is_hot_dir b.profile e.name && not (is_file e.file_type)
      then dir_snapshot e.node_id ∷ files
      else files

  unfoldable pub prefetch_root : M W (Unit {0})
  unfolding root_jobs
  prefetch_root = do
    entries ← refresh_dir_snapshot os 1
    b ← get_backend
    run_prefetch_jobs os (root_jobs b entries)
    run_prefetch_jobs os (dir_snapshot 1 ∷ [])

  -- newMetadataBackend, of an absolute path
  unfoldable pub new_metadata_backend : Text → W → Result BackendError (Unit {0}) × Server W
  unfolding empty_backend prefetch_root
  new_metadata_backend root w =
      let start : Server W = record { backend = empty_backend root; world = w } in
      (do
        info ← of_result (os.stat w root)
        if not info.is_dir then fail (other (codes "root path must be a directory")) else do
          modify (λ b. record b { profile = infer_workspace_profile os w root })
          refresh_node_info os [] 1
          attempt prefetch_root
          return tt)
        start

  unfoldable pub lookup : ℕ → Text → M W NodeInfo
  lookup parent_node_id name = if not (is_valid_single_name name) then fail not_exist else do
    b ← get_backend
    parent ← of_result (node_by_id b parent_node_id)
    node_info_for_path os (child_path parent.rel_path name) parent_node_id

  unfoldable pub get_attr : ℕ → M W NodeInfo
  get_attr node_id = do
    b ← get_backend
    rec ← of_result (node_by_id b node_id)
    node_info_for_path os rec.rel_path rec.parent_id

  unfoldable pub add_cursor : MetadataBackend → ℕ → List DirEntry → MetadataBackend × ℕ
  add_cursor b node_id entries =
      let id = next_u64 b.next_cursor_id in
      (
        record b {
          next_cursor_id = id;
          cursors =
              Map.insert b.cursors id (record { id = id; node_id = node_id; entries = entries });
        },
        id,
      )

  unfoldable pub open_dir : ℕ → M W ℕ
  unfolding add_cursor
  open_dir node_id = do
    entries ← snapshot_dir os node_id
    b ← get_backend
    modify (λ b'. (add_cursor b' node_id entries).0)
    return (add_cursor b node_id entries).1

  unfoldable pub read_dir : ℕ → ℕ → ℕ → M W ReadDirResp
  read_dir cursor_id cookie max_entries = do
    b ← get_backend
    on_option (Map.get b.cursors cursor_id) (fail not_exist)
        (λ cursor. return (read_page cursor.entries cookie max_entries))

  unfoldable pub close_dir : ℕ → M W (Unit {0})
  close_dir cursor_id = do
    b ← get_backend
    on_option (Map.get b.cursors cursor_id) (fail not_exist)
        (λ cursor. modify (λ b'. record b' { cursors = Map.delete b'.cursors cursor_id }))

  -- The test of RenamePath that the target is free.
  unfoldable pub check_target : Text → Bool → M W (Unit {0})
  check_target dst replace = if replace then return tt else do
    found ← attempt (stat os dst)
    on_result found (λ e. if is_not_exist e then return tt else fail e)
        (λ info. fail already_exists)

  -- What RenamePath does after os.Rename.
  unfoldable pub finish_rename : ℕ → Text → Text → ℕ → Text → FileInfo → M W NodeInfo
  finish_rename src_parent src_name src dst_parent dst info = do
    modify (λ b. move_path_mapping b src dst dst_parent)
    modify (λ b. invalidate_entry (invalidate_entry b src) dst)
    modify_now os (λ b now. remove_cached_dir_snapshot_entry b now src_parent src_name)
    node_id ← ensure os dst dst_parent
    let entry = node_info_from_os_info dst dst_parent node_id info
    modify_now os (λ b now. (store_node_info b now dst dst_parent node_id info).0)
    modify_now os (λ b now. upsert_cached_dir_snapshot b now dst_parent entry)
    return entry

  unfoldable pub rename_error : BackendError → BackendError
  rename_error permission = access_denied
  rename_error e = e

  unfoldable pub rename_path : ℕ → Text → ℕ → Text → Bool → M W NodeInfo
  unfolding check_target finish_rename rename_error
  rename_path src_parent src_name dst_parent dst_name replace =
      if not (is_valid_single_name src_name) || not (is_valid_single_name dst_name)
      then fail not_exist
      else do
        b ← get_backend
        src_rec ← of_result (node_by_id b src_parent)
        dst_rec ← of_result (node_by_id b dst_parent)
        let src = child_path src_rec.rel_path src_name
        let dst = child_path dst_rec.rel_path dst_name
        info ← stat os src
        check_target dst replace
        failed ← call (λ w. os.rename w (abs_path b src) (abs_path b dst))
        on_option failed (finish_rename src_parent src_name src dst_parent dst info)
            (λ e. fail (rename_error e))
