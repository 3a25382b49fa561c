-- ===== src/Client/Calls/Files.antt =====
-- internal/clientcore/data.go: the calls on open files.
use net_drive.Prelude.{ℕ, Bool, true, false, [], ◌∷◌}
use net_drive.Prelude.Text.{Text}
use net_drive.Protocol.{NodeInfo}
use net_drive.Protocol.Channel
use net_drive.Protocol.Opcode
use net_drive.Backend.Handles.{Offset}
use net_drive.Dispatch.Defs.{Request}
use net_drive.Client.Tracking.{
  TrackedHandle, track_node_ids, update_handle, mark_handle_write, mark_handle_flush,
  mark_handle_truncate, set_handle_delete_on_close, remove_handle,
}
use net_drive.Client.Calls.Defs.{Services, Call, ◌>>=◌, ◌>>◌, return, get, remember, request_decode}

-- A literal of a TrackedHandle; the times are zero.
unfoldable pub tracked_handle : ℕ → ℕ → Bool → ℕ → TrackedHandle
tracked_handle handle_id node_id writable size = record {
  handle_id = handle_id;
  node_id = node_id;
  writable = writable;
  delete_on_close = false;
  last_known_size = size;
  last_write_at = 0;
  last_flush_at = 0;
  last_truncate_at = 0;
}

module _ {N : Type 0} (v : Services N) where
  -- (handle, size)
  unfoldable pub open_handle : ℕ → Bool → Bool → Call N (ℕ × ℕ)
  unfolding tracked_handle
  open_handle node_id writable truncate = do
    resp ←
        request_decode v Channel.bulk Opcode.open_req
          (v.encode (Request.open_file node_id writable truncate)) v.open_resp
    remember (λ st. update_handle st (tracked_handle resp.0 node_id writable resp.1))
    return resp

  unfoldable pub open_read : ℕ → Call N (ℕ × ℕ)
  open_read node_id = open_handle node_id false false

  unfoldable pub open_write : ℕ → Bool → Call N (ℕ × ℕ)
  open_write node_id truncate = open_handle node_id true truncate

  unfoldable pub create : ℕ → Text → Bool → Call N (NodeInfo × ℕ)
  unfolding tracked_handle
  create parent name overwrite = do
    resp ←
        request_decode v Channel.bulk Opcode.create_req
          (v.encode (Request.create_file parent name overwrite)) v.create_resp
    let entry = resp.0
    remember (λ st. track_node_ids st (parent ∷ entry.node_id ∷ []))
    remember (λ st. update_handle st (tracked_handle resp.1 entry.node_id true entry.size))
    return resp

  unfoldable pub read : ℕ → Offset → ℕ → Call N (Text × Bool)
  read handle_id offset size =
      request_decode v Channel.bulk Opcode.read_req
        (v.encode (Request.read_file handle_id offset size)) v.read_resp

  -- (bytes written, size)
  unfoldable pub write : ℕ → Offset → Text → Call N (ℕ × ℕ)
  write handle_id offset bytes = do
    resp ←
        request_decode v Channel.bulk Opcode.write_req
          (v.encode (Request.write_file handle_id offset bytes)) v.write_resp
    c ← get
    remember (λ st. mark_handle_write st handle_id resp.1 (v.now c.net))
    return resp

  unfoldable pub flush : ℕ → Call N (Unit {0})
  flush handle_id = do
    request_decode v Channel.bulk Opcode.flush_req (v.encode (Request.flush handle_id)) v.done_resp
    c ← get
    remember (λ st. mark_handle_flush st handle_id (v.now c.net))

  unfoldable pub truncate : ℕ → ℕ → Call N ℕ
  truncate handle_id size = do
    size' ←
        request_decode v Channel.bulk Opcode.truncate_req
          (v.encode (Request.truncate handle_id size)) v.truncate_resp
    c ← get
    remember (λ st. mark_handle_truncate st handle_id size' (v.now c.net))
    return size'

  unfoldable pub set_delete_on_close : ℕ → Bool → Call N (Unit {0})
  set_delete_on_close handle_id enabled = do
    request_decode v Channel.bulk Opcode.set_delete_on_close_req
        (v.encode (Request.set_delete_on_close handle_id enabled)) v.done_resp
    remember (λ st. set_handle_delete_on_close st handle_id enabled)

  unfoldable pub close_handle : ℕ → Call N (Unit {0})
  close_handle handle_id = do
    request_decode v Channel.bulk Opcode.close_req (v.encode (Request.close_file handle_id))
        v.done_resp
    remember (λ st. remove_handle st handle_id)
