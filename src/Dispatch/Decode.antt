-- ===== src/Dispatch/Decode.antt =====
-- internal/server/server.go: what a frame of the channels of files and events asks for, by the
-- switch on its opcode. transport.DecodePayload of each request is a parameter.
use net_drive.Prelude.{ℕ, Bool, Option, none, some, List, eqb, if◌then◌else◌, Result, ok, err}
use net_drive.Prelude.Text.{Text}
use net_drive.Protocol.{ErrorCode, RecoverHandleSpec, ResubscribeSpec}
use net_drive.Protocol.Channel
use net_drive.Protocol.Opcode
use net_drive.Backend.Handles.{Offset}
use net_drive.Dispatch.Defs.{
  Request, lookup, get_attr, open_dir, close_dir, read_dir, rename, open_file, create_file,
  read_file, write_file, flush, close_file, truncate, set_delete_on_close, subscribe, poll_events,
  ack_events, resync, recover_handles, revalidate, resubscribe,
}

-- The fields of each request in the order of its Go type; `none` where the payload is no such
-- request. BufferHint of SubscribeReq is not used.
pub record Decoders : Type 0 where
  pub lookup_req : Text → Option (ℕ × Text)
  pub get_attr_req : Text → Option ℕ
  pub open_dir_req : Text → Option ℕ
  pub close_dir_req : Text → Option ℕ
  pub read_dir_req : Text → Option (ℕ × ℕ × ℕ)
  pub rename_req : Text → Option (ℕ × Text × ℕ × Text × Bool)
  pub open_req : Text → Option (ℕ × Bool × Bool)
  pub create_req : Text → Option (ℕ × Text × Bool)
  pub read_req : Text → Option (ℕ × Offset × ℕ)
  pub write_req : Text → Option (ℕ × Offset × Text)
  pub flush_req : Text → Option ℕ
  pub close_req : Text → Option ℕ
  pub truncate_req : Text → Option (ℕ × ℕ)
  pub set_delete_on_close_req : Text → Option (ℕ × Bool)
  pub subscribe_req : Text → Option (ℕ × Bool)
  pub poll_events_req : Text → Option (ℕ × ℕ × ℕ)
  pub ack_events_req : Text → Option (ℕ × ℕ)
  pub resync_req : Text → Option ℕ
  pub recover_handles_req : Text → Option (List RecoverHandleSpec)
  pub revalidate_req : Text → Option (List ℕ)
  pub resubscribe_req : Text → Option (List ResubscribeSpec)

unfoldable pub decoded : {A : Type 0} → Option A → (A → Request) → Result ErrorCode Request
decoded none f = err ErrorCode.invalid_request
decoded (some a) f = ok (f a)

unfoldable pub decode_metadata : Decoders → ℕ → Text → Result ErrorCode Request
unfolding decoded
decode_metadata d opcode payload =
    if eqb opcode Opcode.lookup_req
    then decoded (d.lookup_req payload) (λ r. lookup r.0 r.1)
    else if eqb opcode Opcode.get_attr_req
    then decoded (d.get_attr_req payload) get_attr
    else if eqb opcode Opcode.open_dir_req
    then decoded (d.open_dir_req payload) open_dir
    else if eqb opcode Opcode.read_dir_req
    then decoded (d.read_dir_req payload) (λ r. read_dir r.0 r.1 r.2)
    else if eqb opcode Opcode.close_dir_req
    then decoded (d.close_dir_req payload) close_dir
    else if eqb opcode Opcode.rename_req
    then decoded (d.rename_req payload) (λ r. rename r.0 r.1 r.2 r.3 r.4)
    else err ErrorCode.unsupported_op

unfoldable pub decode_data : Decoders → ℕ → Text → Result ErrorCode Request
unfolding decoded
decode_data d opcode payload =
    if eqb opcode Opcode.open_req
    then decoded (d.open_req payload) (λ r. open_file r.0 r.1 r.2)
    else if eqb opcode Opcode.create_req
    then decoded (d.create_req payload) (λ r. create_file r.0 r.1 r.2)
    else if eqb opcode Opcode.read_req
    then decoded (d.read_req payload) (λ r. read_file r.0 r.1 r.2)
    else if eqb opcode Opcode.write_req
    then decoded (d.write_req payload) (λ r. write_file r.0 r.1 r.2)
    else if eqb opcode Opcode.flush_req
    then decoded (d.flush_req payload) flush
    else if eqb opcode Opcode.truncate_req
    then decoded (d.truncate_req payload) (λ r. truncate r.0 r.1)
    else if eqb opcode Opcode.set_delete_on_close_req
    then decoded (d.set_delete_on_close_req payload) (λ r. set_delete_on_close r.0 r.1)
    else if eqb opcode Opcode.close_req
    then decoded (d.close_req payload) close_file
    else err ErrorCode.unsupported_op

unfoldable pub decode_events : Decoders → ℕ → Text → Result ErrorCode Request
unfolding decoded
decode_events d opcode payload =
    if eqb opcode Opcode.subscribe_req
    then decoded (d.subscribe_req payload) (λ r. subscribe r.0 r.1)
    else if eqb opcode Opcode.poll_events_req
    then decoded (d.poll_events_req payload) (λ r. poll_events r.0 r.1 r.2)
    else if eqb opcode Opcode.ack_events_req
    then decoded (d.ack_events_req payload) (λ r. ack_events r.0 r.1)
    else if eqb opcode Opcode.resync_req
    then decoded (d.resync_req payload) resync
    else err ErrorCode.unsupported_op

unfoldable pub decode_recovery : Decoders → ℕ → Text → Result ErrorCode Request
unfolding decoded
decode_recovery d opcode payload =
    if eqb opcode Opcode.recover_handles_req
    then decoded (d.recover_handles_req payload) recover_handles
    else if eqb opcode Opcode.revalidate_req
    then decoded (d.revalidate_req payload) revalidate
    else if eqb opcode Opcode.resubscribe_req
    then decoded (d.resubscribe_req payload) resubscribe
    else err ErrorCode.unsupported_op

-- The switch of dispatch on the channel, after the session was found active.
unfoldable pub decode : Decoders → ℕ → ℕ → Text → Result ErrorCode Request
unfolding decode_metadata decode_data decode_events decode_recovery
decode d channel opcode payload =
    if eqb channel Channel.metadata
    then decode_metadata d opcode payload
    else if eqb channel Channel.bulk
    then decode_data d opcode payload
    else if eqb channel Channel.events
    then decode_events d opcode payload
    else if eqb channel Channel.recovery
    then decode_recovery d opcode payload
    else err ErrorCode.unsupported_op
