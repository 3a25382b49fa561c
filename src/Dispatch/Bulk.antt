-- ===== src/Dispatch/Bulk.antt =====
-- dispatchData of internal/server/server.go, of requests that were decoded.
use net_drive.Prelude.{ℕ, Bool, [], if◌then◌else◌, Result, ok, err}
use net_drive.Prelude.Text.{Text}
use net_drive.Protocol.{EventType, NodeInfo}
use net_drive.Backend.Defs.{BackendError}
use net_drive.Backend.Files
use net_drive.Backend.Handles
use net_drive.Backend.Handles.{Offset}
use net_drive.Backend.Recovery.{HandleSnapshot, handle_snapshot, rel_path_by_node_id}
use net_drive.Dispatch.Defs.{
  Handler, ◌>>=◌, ◌>>◌, return, try_backend, Services, Response, publish, event_at, open_resp,
  create_resp, read_resp, write_resp, flush_resp, truncate_resp, set_delete_on_close_resp,
  close_resp,
}
use net_drive.Dispatch.Errors.{call_backend}

-- relPath, _ := …: the empty path where the call fails
unfoldable pub path_or_empty : Result BackendError Text → Text
path_or_empty (ok path) = path
path_or_empty (err e) = []

module _ {W : Type 0} (v : Services W) where
  -- An event about an open file, with the place that its snapshot tells.
  unfoldable pub publish_file : EventType → HandleSnapshot → Handler W (Unit {0})
  publish_file kind snapshot =
      publish v
        (event_at kind snapshot.node_id snapshot.parent_node_id snapshot.name snapshot.rel_path)

  unfoldable pub serve_open : ℕ → Bool → Bool → Handler W Response
  serve_open node_id writable truncate = do
    opened ← call_backend (Files.open_file v.os node_id writable truncate)
    return (open_resp opened.0 opened.1)

  -- The event and the answer of a created file.
  unfoldable pub announce_created : NodeInfo × ℕ → Handler W Response
  unfolding path_or_empty
  announce_created (entry, handle_id) = do
    found ← try_backend (rel_path_by_node_id v.os entry.node_id)
    publish v (
        event_at EventType.created entry.node_id entry.parent_node_id entry.name
          (path_or_empty found))
    return (create_resp entry handle_id)

  unfoldable pub serve_create_file : ℕ → Text → Bool → Handler W Response
  unfolding announce_created
  serve_create_file parent name overwrite = do
    created ← call_backend (Files.create_file v.os parent name overwrite)
    announce_created created

  unfoldable pub serve_read : ℕ → Offset → ℕ → Handler W Response
  serve_read handle_id offset size = do
    got ← call_backend (Handles.read_file v.os handle_id offset size)
    return (read_resp got.0 got.1 offset)

  unfoldable pub serve_write : ℕ → Offset → Text → Handler W Response
  serve_write handle_id offset bytes = do
    written ← call_backend (Handles.write_file v.os handle_id offset bytes)
    return (write_resp written.0 written.1)

  unfoldable pub serve_flush : ℕ → Handler W Response
  unfolding publish_file
  serve_flush handle_id = do
    snapshot ← call_backend (handle_snapshot v.os handle_id)
    call_backend (Handles.flush_handle v.os handle_id)
    publish_file EventType.content_changed snapshot
    return flush_resp

  unfoldable pub serve_truncate : ℕ → ℕ → Handler W Response
  unfolding publish_file
  serve_truncate handle_id size = do
    snapshot ← call_backend (handle_snapshot v.os handle_id)
    size' ← call_backend (Handles.truncate_handle v.os handle_id size)
    publish_file EventType.content_changed snapshot
    return (truncate_resp size')

  unfoldable pub serve_set_delete_on_close : ℕ → Bool → Handler W Response
  serve_set_delete_on_close handle_id enabled = do
    call_backend (Handles.set_delete_on_close v.os handle_id enabled)
    return (set_delete_on_close_resp enabled)

  -- The event of a close: snapErr == nil && snapshot.DeleteOnClose.
  unfoldable pub publish_close : Result BackendError HandleSnapshot → Handler W (Unit {0})
  unfolding publish_file
  publish_close (err e) = return tt
  publish_close (ok snapshot) =
      if snapshot.delete_on_close then publish_file EventType.deleted snapshot else return tt

  unfoldable pub serve_close : ℕ → Handler W Response
  unfolding publish_close
  serve_close handle_id = do
    snapshot ← try_backend (handle_snapshot v.os handle_id)
    call_backend (Handles.close_handle v.os handle_id)
    publish_close snapshot
    return close_resp
