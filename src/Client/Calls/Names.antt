-- ===== src/Client/Calls/Names.antt =====
-- internal/clientcore/metadata.go: the calls on names and directories.
use net_drive.Prelude.{ℕ, Bool, List, [], ◌∷◌}
use net_drive.Prelude.Text.{Text}
use net_drive.Protocol.{NodeInfo, DirEntry, ReadDirResp}
use net_drive.Protocol.Channel
use net_drive.Protocol.Opcode
use net_drive.Dispatch.Defs.{Request}
use net_drive.Client.Tracking.{track_node_ids, update_dir_cursor, remove_dir_cursor}
use net_drive.Client.Calls.Defs.{Services, Call, ◌>>=◌, ◌>>◌, return, remember, request_decode}

unfoldable pub entry_nodes : List DirEntry → List ℕ
entry_nodes [] = []
entry_nodes (e ∷ entries) = e.node_id ∷ entry_nodes entries

module _ {N : Type 0} (v : Services N) where
  unfoldable pub lookup : ℕ → Text → Call N NodeInfo
  lookup parent name = do
    entry ←
        request_decode v Channel.metadata Opcode.lookup_req (v.encode (Request.lookup parent name))
          v.entry_resp
    remember (λ st. track_node_ids st (parent ∷ entry.node_id ∷ []))
    return entry

  unfoldable pub get_attr : ℕ → Call N NodeInfo
  get_attr node_id = do
    entry ←
        request_decode v Channel.metadata Opcode.get_attr_req (v.encode (Request.get_attr node_id))
          v.entry_resp
    remember (λ st. track_node_ids st (node_id ∷ entry.parent_node_id ∷ []))
    return entry

  unfoldable pub open_dir : ℕ → Call N ℕ
  open_dir node_id = do
    cursor_id ←
        request_decode v Channel.metadata Opcode.open_dir_req (v.encode (Request.open_dir node_id))
          v.open_dir_resp
    remember (λ st. update_dir_cursor st (record { dir_cursor_id = cursor_id; node_id = node_id }))
    return cursor_id

  unfoldable pub read_dir : ℕ → ℕ → ℕ → Call N ReadDirResp
  unfolding entry_nodes
  read_dir cursor_id cookie max_entries = do
    resp ←
        request_decode v Channel.metadata Opcode.read_dir_req
          (v.encode (Request.read_dir cursor_id cookie max_entries)) v.read_dir_resp
    remember (λ st. track_node_ids st (entry_nodes resp.entries))
    return resp

  unfoldable pub close_dir : ℕ → Call N (Unit {0})
  close_dir cursor_id = do
    request_decode v Channel.metadata Opcode.close_dir_req (v.encode (Request.close_dir cursor_id))
        v.done_resp
    remember (λ st. remove_dir_cursor st cursor_id)

  unfoldable pub rename : ℕ → Text → ℕ → Text → Bool → Call N NodeInfo
  rename src_parent src_name dst_parent dst_name replace = do
    entry ←
        request_decode v Channel.metadata Opcode.rename_req
          (v.encode (Request.rename src_parent src_name dst_parent dst_name replace)) v.entry_resp
    remember (λ st. track_node_ids st (src_parent ∷ dst_parent ∷ entry.node_id ∷ []))
    return entry
