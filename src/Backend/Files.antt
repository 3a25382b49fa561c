-- ===== src/Backend/Files.antt =====
-- internal/server/metadata_backend.go: the table of open files, OpenFile and CreateFile.
use net_drive.Prelude.{ℕ, Bool, true, false, none, some, if◌then◌else◌, not, nat_eq, ok, ◌||◌}
use net_drive.Prelude.Map
use net_drive.Prelude.Text.{Text}
use net_drive.Prelude.Words.{next_u64}
use net_drive.Protocol.{NodeInfo}
use net_drive.Backend.Defs.{
  MetadataBackend, FileHandle, BackendError, not_exist, exist, permission, already_exists, not_dir,
  is_dir, access_denied, OpenMode, read_only, read_write, read_write_truncate, create_truncate,
  create_exclusive, Os, M, ◌>>=◌, on_result, ◌>>◌, return, fail, attempt, of_result, get_backend,
  get_world, modify, call,
}
use net_drive.Backend.Profile.{is_file}
use net_drive.Backend.Nodes.{node_by_id, handle_by_id, child_path, abs_path, is_valid_single_name}
use net_drive.Backend.Cache.{
  store_node_info, node_info_from_os_info, upsert_cached_dir_snapshot, invalidate_dir_snapshot,
  invalidate_entry,
}
use net_drive.Backend.Refresh.{modify_now, ensure, stat, refresh_node_info, node_info_for_path}

unfoldable pub add_handle : MetadataBackend → ℕ → ℕ → Text → ℕ → ℕ → Bool → MetadataBackend × ℕ
add_handle b node_id parent_id path f size writable =
    let id = next_u64 b.next_handle_id in
    (
      record b {
        next_handle_id = id;
        handles = Map.insert b.handles id (record {
          id = id;
          node_id = node_id;
          parent_id = parent_id;
          rel_path = path;
          file = f;
          size = size;
          writable = writable;
          delete_on_close = false;
        });
      },
      id,
    )

-- A write to the fields of a handle that the map still holds.
unfoldable pub update_handle : MetadataBackend → ℕ → (FileHandle → FileHandle) → MetadataBackend
update_handle b id f = elim (Map.get b.handles id) [
  | none ↦ b
  | some h ↦ record b { handles = Map.insert b.handles id (f h) }
]

unfoldable pub open_mode : Bool → Bool → OpenMode
open_mode writable truncate =
    if writable then (if truncate then read_write_truncate else read_write) else read_only

unfoldable pub open_error : BackendError → BackendError
open_error permission = access_denied
open_error e = e

unfoldable pub create_error : BackendError → BackendError
create_error exist = already_exists
create_error permission = access_denied
create_error e = e

module _ {W : Type 0} (os : Os W) where
  unfoldable pub handle : ℕ → M W FileHandle
  handle id s = (handle_by_id s.backend id, s)

  unfoldable pub refresh_node_info_and_patch_parent : Text → ℕ → M W (Unit {0})
  refresh_node_info_and_patch_parent path parent_id = do
    found ← attempt (refresh_node_info os path parent_id)
    on_result found (λ e. modify (λ b. invalidate_dir_snapshot b parent_id))
        (λ entry. modify_now os (λ b now. upsert_cached_dir_snapshot b now parent_id entry))

  unfoldable pub new_handle : ℕ → ℕ → Text → ℕ → ℕ → Bool → M W ℕ
  unfolding add_handle
  new_handle node_id parent_id path f size writable s =
      let (b, id) = add_handle s.backend node_id parent_id path f size writable in
      (ok id, record s { backend = b })

  -- (handle, size)
  unfoldable pub open_file : ℕ → Bool → Bool → M W (ℕ × ℕ)
  unfolding new_handle open_mode open_error refresh_node_info_and_patch_parent
  open_file node_id writable truncate = do
    b ← get_backend
    rec ← of_result (node_by_id b node_id)
    info ← stat os rec.rel_path
    if info.is_dir then fail is_dir else do
      opened ← call (λ w. os.open_file w (abs_path b rec.rel_path) (open_mode writable truncate))
      on_result opened (λ e. fail (open_error e))
          (λ f. do
            let size = if truncate then 0 else info.size
            id ← new_handle node_id rec.parent_id rec.rel_path f size writable
            modify (λ b'. if writable || truncate then invalidate_entry b' rec.rel_path else b')
            if truncate
                then refresh_node_info_and_patch_parent rec.rel_path rec.parent_id
                else return tt
            return (id, size))

  -- CreateFile, after the file was opened
  unfoldable pub finish_create : ℕ → Text → ℕ → M W (NodeInfo × ℕ)
  unfolding new_handle
  finish_create parent path f = do
    node_id ← ensure os path parent
    id ← new_handle node_id parent path f 0 true
    modify (λ b. invalidate_entry b path)
    w ← get_world
    on_result (os.file_stat w f)
        (λ e. do
          call (λ w'. os.close w' f)
          modify (λ b'. invalidate_dir_snapshot b' parent)
          fail e)
        (λ info. do
          let entry = node_info_from_os_info path parent node_id info
          modify_now os (λ b now. (store_node_info b now path parent node_id info).0)
          modify_now os (λ b now. upsert_cached_dir_snapshot b now parent entry)
          return (entry, id))

  unfoldable pub create_file : ℕ → Text → Bool → M W (NodeInfo × ℕ)
  unfolding finish_create create_error
  create_file parent_node_id name overwrite =
      if not (is_valid_single_name name) then fail not_exist else do
        b ← get_backend
        parent ← of_result (node_by_id b parent_node_id)
        parent_info ← node_info_for_path os parent.rel_path parent.parent_id
        if is_file parent_info.file_type then fail not_dir else do
          let path = child_path parent.rel_path name
          opened ← call (λ w.
              os.open_file w (abs_path b path)
                (if overwrite then create_truncate else create_exclusive))
          on_result opened (λ e. fail (create_error e)) (λ f. finish_create parent_node_id path f)
