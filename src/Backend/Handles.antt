-- ===== src/Backend/Handles.antt =====
-- internal/server/metadata_backend.go: the calls on open files. An offset is `at n`, or
-- `before_start` where it is negative; a size is not negative.
use net_drive.Prelude.{
  ℕ, ◌+◌, Bool, true, [], eqb, leb, ltb, if◌then◌else◌, not, nat_eq, Result, ok, err, ◌||◌, length,
  take, drop,
}
use net_drive.Prelude.Map
use net_drive.Prelude.Text.{Text}
use net_drive.Prelude.Text.Paths.{base}
use net_drive.Backend.Defs.{
  FileHandle, ReadStatus, BackendError, of_result, access_denied, invalid_offset, full, at_eof,
  failed, Os, M, ◌>>=◌, on_option, on_result, ◌>>◌, return, fail, attempt, get_backend, get_world,
  modify, call,
}
use net_drive.Backend.Nodes.{abs_path, remove_path_mapping}
use net_drive.Backend.Cache.{
  record_negative, store_node_info, node_info_from_os_info, upsert_cached_dir_snapshot,
  remove_cached_dir_snapshot_entry, invalidate_dir_snapshot, invalidate_entry,
}
use net_drive.Backend.Files.{handle, update_handle, refresh_node_info_and_patch_parent}
use net_drive.Backend.Refresh.{modify_now, load_small_file_cache, is_not_exist}

pub data Offset : Type 0 where
  at : ℕ → Offset
  before_start : Offset

-- The bytes from the offset on, `length` of them or, if it is 0, all; and whether they are the last.
unfoldable pub slice : Text → ℕ → ℕ → Text × Bool
slice bytes offset size =
    let n = length bytes in
    if ltb n offset
    then ([], true)
    else (let end' = if eqb size 0 || ltb n (offset + size) then n else offset + size in
        (drop offset (take end' bytes), leb n end'))

-- What ReadFile makes of the bytes and the end of File.ReadAt.
unfoldable pub read_answer : FileHandle → ℕ → Text → ReadStatus → Result BackendError (Text × Bool)
read_answer h offset bytes (failed e) = err e
read_answer h offset bytes at_eof = ok (bytes, true)
read_answer h offset bytes full = ok (bytes, leb h.size (offset + length bytes))

module _ {W : Type 0} (os : Os W) where
  -- ReadFile past the cache of small files
  unfoldable pub read_from_os : FileHandle → ℕ → ℕ → M W (Text × Bool)
  unfolding read_answer
  read_from_os h offset size = do
    w ← get_world
    let got = os.read_at w h.file offset (if eqb size 0 then 4096 else size)
    of_result (read_answer h offset got.0 got.1)

  -- (bytes, eof)
  unfoldable pub read_file : ℕ → Offset → ℕ → M W (Text × Bool)
  unfolding slice read_from_os
  read_file handle_id before_start size = do handle os handle_id; fail invalid_offset
  read_file handle_id (at n) size = do
    h ← handle os handle_id
    if h.writable then read_from_os h n size else do
      cached ← attempt (load_small_file_cache os h.rel_path)
      on_result cached (λ e. read_from_os h n size)
          (λ found. on_option found (read_from_os h n size) (λ bytes. return (slice bytes n size)))

  -- (bytes written, size); where the operating system fails, its error
  unfoldable pub write_file : ℕ → Offset → Text → M W (ℕ × ℕ)
  unfolding update_handle
  write_file handle_id before_start bytes = do
    h ← handle os handle_id
    fail (if not h.writable then access_denied else invalid_offset)
  write_file handle_id (at n) bytes = do
    h ← handle os handle_id
    if not h.writable then fail access_denied else do
      written ← call (λ w. os.write_at w h.file n bytes)
      let size = if ltb h.size (n + written.0) then n + written.0 else h.size
      on_option written.1
          (do
            modify (λ b. update_handle b handle_id (λ h'. record h' { size = size }))
            modify (λ b. invalidate_entry b h.rel_path)
            return (written.0, size))
          (λ e. fail e)

  unfoldable pub flush_handle : ℕ → M W (Unit {0})
  unfolding update_handle
  flush_handle handle_id = do
    h ← handle os handle_id
    synced ← call (λ w. os.sync w h.file)
    on_option synced
        (do
          modify (λ b. invalidate_entry b h.rel_path)
          w ← get_world
          on_result (os.file_stat w h.file)
              (λ e. do modify (λ b. invalidate_dir_snapshot b h.parent_id); fail e)
              (λ info. do
                let entry = node_info_from_os_info h.rel_path h.parent_id h.node_id info
                modify_now os
                    (λ b now. (store_node_info b now h.rel_path h.parent_id h.node_id info).0)
                modify (λ b. update_handle b handle_id (λ h'. record h' { size = entry.size }))
                modify_now os (λ b now. upsert_cached_dir_snapshot b now h.parent_id entry)))
        (λ e. fail e)

  unfoldable pub truncate_handle : ℕ → ℕ → M W ℕ
  unfolding update_handle refresh_node_info_and_patch_parent
  truncate_handle handle_id size = do
    h ← handle os handle_id
    if not h.writable then fail access_denied else do
      truncated ← call (λ w. os.truncate w h.file size)
      on_option truncated
          (do
            modify (λ b. update_handle b handle_id (λ h'. record h' { size = size }))
            modify (λ b. invalidate_entry b h.rel_path)
            refresh_node_info_and_patch_parent os h.rel_path h.parent_id
            return size)
          (λ e. fail e)

  unfoldable pub set_delete_on_close : ℕ → Bool → M W (Unit {0})
  unfolding update_handle
  set_delete_on_close handle_id enabled = do
    handle os handle_id
    modify (λ b. update_handle b handle_id (λ h. record h { delete_on_close = enabled }))

  -- CloseHandle of a handle to be deleted, after os.Remove
  unfoldable pub forget_removed : FileHandle → M W (Unit {0})
  forget_removed h = do
    modify (λ b. invalidate_entry (remove_path_mapping b h.rel_path) h.rel_path)
    modify_now os (λ b now. remove_cached_dir_snapshot_entry b now h.parent_id (base h.rel_path))
    modify_now os (λ b now. record_negative b now h.rel_path)

  unfoldable pub finish_close : FileHandle → M W (Unit {0})
  unfolding forget_removed refresh_node_info_and_patch_parent
  finish_close h =
      if h.delete_on_close
      then (do
        b ← get_backend
        removed ← call (λ w. os.remove w (abs_path b h.rel_path))
        on_option removed (forget_removed h)
            (λ e. if is_not_exist e then forget_removed h else fail e))
      else if h.writable
      then (do
        modify (λ b. invalidate_entry b h.rel_path)
        refresh_node_info_and_patch_parent os h.rel_path h.parent_id)
      else return tt

  unfoldable pub close_handle : ℕ → M W (Unit {0})
  unfolding finish_close
  close_handle handle_id = do
    h ← handle os handle_id
    modify (λ b. record b { handles = Map.delete b.handles handle_id })
    closed ← call (λ w. os.close w h.file)
    on_option closed (finish_close h) (λ e. fail e)
