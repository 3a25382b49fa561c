-- ===== src/Dispatch/Serve.antt =====
-- internal/server/server.go: the handlers of all requests but those of the control channel, and
-- the headers of their answers.
use net_drive.Prelude.{ℕ, ◌+◌, [], Result, ok, err}
use net_drive.Prelude.Text.{Text}
use net_drive.Protocol.{Header, ErrorCode}
use net_drive.Protocol.Flag
use net_drive.Protocol.Opcode
use net_drive.Dispatch.Defs
use net_drive.Dispatch.Defs.{Site, Handler, refuse, Services, Request, Response}
use net_drive.Dispatch.Decode.{Decoders, decode}
use net_drive.Dispatch.Metadata.{
  serve_lookup, serve_get_attr, serve_open_dir, serve_read_dir, serve_close_dir, serve_rename,
}
use net_drive.Dispatch.Bulk.{
  serve_open, serve_create_file, serve_read, serve_write, serve_flush, serve_truncate,
  serve_set_delete_on_close, serve_close,
}
use net_drive.Dispatch.Events.{serve_subscribe, serve_poll, serve_ack, serve_resync}
use net_drive.Dispatch.Recovery.{serve_recover_handles, serve_revalidate, serve_resubscribe}

-- The opcode of an answer.
unfoldable pub opcode_of : Response → ℕ
opcode_of (Defs.lookup_resp entry) = Opcode.lookup_resp
opcode_of (Defs.get_attr_resp entry) = Opcode.get_attr_resp
opcode_of (Defs.rename_resp entry) = Opcode.rename_resp
opcode_of (Defs.open_dir_resp cursor_id) = Opcode.open_dir_resp
opcode_of (Defs.truncate_resp size) = Opcode.truncate_resp
opcode_of (Defs.read_dir_resp page) = Opcode.read_dir_resp
opcode_of Defs.close_dir_resp = Opcode.close_dir_resp
opcode_of Defs.flush_resp = Opcode.flush_resp
opcode_of Defs.close_resp = Opcode.close_resp
opcode_of (Defs.open_resp handle_id size) = Opcode.open_resp
opcode_of (Defs.write_resp written size) = Opcode.write_resp
opcode_of (Defs.subscribe_resp watch_id start_seq) = Opcode.subscribe_resp
opcode_of (Defs.ack_events_resp watch_id acked) = Opcode.ack_events_resp
opcode_of (Defs.create_resp entry handle_id) = Opcode.create_resp
opcode_of (Defs.read_resp bytes eof offset) = Opcode.read_resp
opcode_of (Defs.set_delete_on_close_resp enabled) = Opcode.set_delete_on_close_resp
opcode_of (Defs.poll_events_resp resp) = Opcode.poll_events_resp
opcode_of (Defs.resync_resp resp) = Opcode.resync_resp
opcode_of (Defs.recover_handles_resp results) = Opcode.recover_handles_resp
opcode_of (Defs.revalidate_resp entries) = Opcode.revalidate_resp
opcode_of (Defs.resubscribe_resp results) = Opcode.resubscribe_resp

module _ {W : Type 0} (v : Services W) where
  unfoldable pub serve : Request → Handler W Response
  serve (Defs.lookup parent name) = serve_lookup v parent name
  serve (Defs.get_attr node_id) = serve_get_attr v node_id
  serve (Defs.open_dir node_id) = serve_open_dir v node_id
  serve (Defs.close_dir cursor_id) = serve_close_dir v cursor_id
  serve (Defs.read_dir cursor_id cookie max_entries) = serve_read_dir v cursor_id cookie max_entries
  serve (Defs.rename src_parent src_name dst_parent dst_name replace) =
      serve_rename v src_parent src_name dst_parent dst_name replace
  serve (Defs.open_file node_id writable truncate) = serve_open v node_id writable truncate
  serve (Defs.create_file parent name overwrite) = serve_create_file v parent name overwrite
  serve (Defs.read_file handle_id offset size) = serve_read v handle_id offset size
  serve (Defs.write_file handle_id offset bytes) = serve_write v handle_id offset bytes
  serve (Defs.flush handle_id) = serve_flush v handle_id
  serve (Defs.close_file handle_id) = serve_close v handle_id
  serve (Defs.truncate handle_id size) = serve_truncate v handle_id size
  serve (Defs.set_delete_on_close handle_id enabled) = serve_set_delete_on_close v handle_id enabled
  serve (Defs.subscribe node_id recursive) = serve_subscribe v node_id recursive
  serve (Defs.poll_events watch_id after_seq max_events) =
      serve_poll v watch_id after_seq max_events
  serve (Defs.ack_events watch_id event_seq) = serve_ack v watch_id event_seq
  serve (Defs.resync watch_id) = serve_resync v watch_id
  serve (Defs.recover_handles specs) = serve_recover_handles v specs
  serve (Defs.revalidate node_ids) = serve_revalidate v node_ids
  serve (Defs.resubscribe specs) = serve_resubscribe v specs

  -- A request that was decoded, or the error where it could not be.
  unfoldable pub serve_decoded : Result ErrorCode Request → Handler W Response
  unfolding serve
  serve_decoded (err code) = refuse code
  serve_decoded (ok request) = serve request

  -- dispatchMetadata, dispatchData, dispatchEvents or dispatchRecovery, by the channel of the frame.
  -- The channel and the session are tested before, in Dispatch/Connection.
  unfoldable pub serve_frame : Decoders → Header → Text → Handler W Response
  unfolding serve_decoded
  serve_frame d header payload = serve_decoded (decode d header.channel header.opcode payload)

-- The header of writeResponse and of writeError, to the header of a request.
unfoldable pub response_header : Header → ℕ → ℕ → Header
response_header request opcode session_id = record request {
  magic = [];
  version = 0;
  header_length = 0;
  opcode = opcode;
  flags = Flag.response;
  session_id = session_id;
  payload_length = 0;
}

unfoldable pub error_header : Header → Header
error_header request = record request {
  magic = [];
  version = 0;
  header_length = 0;
  opcode = Opcode.error_resp;
  flags = Flag.response + Flag.error;
  payload_length = 0;
}
