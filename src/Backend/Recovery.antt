-- ===== src/Backend/Recovery.antt =====
-- internal/server/metadata_backend.go: what the journal and a client that reconnects ask for.
-- The walk of SnapshotSubtree runs on fuel, one unit for each level of directories.
use net_drive.Prelude.{
  ℕ, zero, suc, Bool, true, false, none, some, List, [], ◌∷◌, ◌++◌, if◌then◌else◌, nat_eq, ok, err,
  ◌&&◌, not,
}
use net_drive.Prelude.Text.{Text, codes, text_geb, is_empty, trim_prefix, slash}
use net_drive.Prelude.Text.Paths.{base}
use net_drive.Protocol.{SnapshotEntry, RevalidateEntry}
use net_drive.Backend.Defs.{
  other, Os, M, ◌>>=◌, on_result, ◌>>◌, return, fail, attempt, of_result, get_backend, get_world,
  modify,
}
use net_drive.Backend.Profile.{is_file}
use net_drive.Backend.Nodes.{node_by_id, child_path, abs_path, remove_path_mapping}
use net_drive.Backend.Refresh.{node_info_for_path, is_not_exist}
use net_drive.Backend.Entries.{get_attr}
use net_drive.Backend.Files.{handle, open_file}
use net_drive.Backend.Handles.{set_delete_on_close, close_handle}

pub record HandleSnapshot : Type 0 where
  pub node_id : ℕ
  pub parent_node_id : ℕ
  pub rel_path : Text
  pub name : Text
  pub delete_on_close : Bool
  pub size : ℕ

-- sort.Slice by relative path; the paths are distinct.
unfoldable pub insert_by_path : SnapshotEntry → List SnapshotEntry → List SnapshotEntry
insert_by_path e [] = e ∷ []
insert_by_path e (x ∷ entries) =
    let rest = insert_by_path e entries in
    if text_geb x.relative_path e.relative_path then e ∷ x ∷ entries else x ∷ rest

unfoldable pub sort_by_path : List SnapshotEntry → List SnapshotEntry
unfolding insert_by_path
sort_by_path [] = []
sort_by_path (e ∷ entries) = insert_by_path e (sort_by_path entries)

-- filepath.Rel of a path under the base, both relative to the root
unfoldable pub relative_to : Text → Text → Text
relative_to root path = if is_empty root then path else trim_prefix path (root ++ (slash ∷ []))

module _ {W : Type 0} (os : Os W) where
  unfoldable pub handle_snapshot : ℕ → M W HandleSnapshot
  handle_snapshot handle_id = do
    h ← handle os handle_id
    return (record {
      node_id = h.node_id;
      parent_node_id = h.parent_id;
      rel_path = h.rel_path;
      name = base h.rel_path;
      delete_on_close = h.delete_on_close;
      size = h.size;
    })

  unfoldable pub rel_path_by_node_id : ℕ → M W Text
  rel_path_by_node_id node_id = do
    b ← get_backend
    rec ← of_result (node_by_id b node_id)
    return rec.rel_path

  -- One directory of the walk; `descend` is the walk of a child.
  unfoldable pub walk_names :
      (Text → M W (List SnapshotEntry))
      → Text
      → ℕ
      → Bool
      → Text
      → List (Text × Bool)
      → M W (List SnapshotEntry)
  walk_names descend root node_id recursive current [] = return []
  walk_names descend root node_id recursive current ((name, is_dir) ∷ names) = do
    let child = child_path current name
    info ← node_info_for_path os child node_id
    below ← if recursive && is_dir then descend child else return []
    rest ← walk_names descend root node_id recursive current names
    return (record { relative_path = relative_to root child; entry = info } ∷ (below ++ rest))

  -- The entries below a directory, in the order of the walk.
  unfoldable pub walk : ℕ → Text → ℕ → Bool → Text → M W (List SnapshotEntry)
  unfolding walk_names
  walk zero root node_id recursive current = fail (other (codes "out of fuel"))
  walk (suc fuel) root node_id recursive current = do
    b ← get_backend
    w ← get_world
    names ← of_result (os.read_dir w (abs_path b current))
    walk_names (walk fuel root node_id recursive) root node_id recursive current names

  unfoldable pub snapshot_subtree : ℕ → ℕ → Bool → M W (List SnapshotEntry)
  unfolding walk sort_by_path
  snapshot_subtree fuel node_id recursive = do
    b ← get_backend
    rec ← of_result (node_by_id b node_id)
    root_info ← get_attr os node_id
    let root : SnapshotEntry = record { relative_path = []; entry = root_info }
    if is_file root_info.file_type then return (root ∷ []) else do
      entries ← walk fuel rec.rel_path node_id recursive rec.rel_path
      return (sort_by_path (root ∷ entries))

  unfoldable pub recover_file_handle : ℕ → Bool → Bool → M W (ℕ × ℕ)
  recover_file_handle node_id writable delete_on_close = do
    opened ← open_file os node_id writable false
    if not delete_on_close then return opened else do
      marked ← attempt (set_delete_on_close os opened.0 true)
      elim marked [ ok u ↦ return opened | err e ↦ do attempt (close_handle os opened.0); fail e ]

  abbrev missing : ℕ → RevalidateEntry
  missing node_id = record { node_id = node_id; found = false; entry = none; error = [] }

  unfoldable pub revalidate_node : ℕ → M W RevalidateEntry
  revalidate_node node_id = do
    b ← get_backend
    on_result (node_by_id b node_id)
        (λ e. if is_not_exist e then return (missing node_id) else fail e)
        (λ rec. do
          found ← attempt (node_info_for_path os rec.rel_path rec.parent_id)
          on_result found
              (λ e.
                if is_not_exist e
                then (do
                  modify (λ b'. remove_path_mapping b' rec.rel_path)
                  return (missing node_id))
                else fail e)
              (λ info.
                return (record { node_id = node_id; found = true; entry = some info; error = [] })))
