-- ===== src/Client/Wire.antt =====
-- internal/clientcore/rpc.go and client.go: a client, its connection, and one request on it.
-- json.Marshal and json.Unmarshal are outside: a payload is its bytes.
use net_drive.Prelude.{
  ℕ, ◌/◌, ◌%◌, Bool, false, Option, none, some, [], eqb, if◌then◌else◌, not, nat_eq, Result, ok,
  err,
}
use net_drive.Prelude.Map
use net_drive.Prelude.Text.{Text, codes}
use net_drive.Prelude.Words.{next_u64}
use net_drive.Protocol.{Header, ErrorCode}
use net_drive.Protocol.Flag
use net_drive.Transport.{FrameError, encode_frame, decode_frame}
use net_drive.Client.Tracking.{RuntimeState}

-- A connection of which the client sees the state N: what a write makes of it, the bytes that
-- arrive next, and the connection after a frame of them was read or could not be read.
pub record Conn (N : Type 0) : Type 0 where
  pub write : N → Text → Option Text × N
  pub arriving : N → Text
  pub left : N → Text → N
  pub broken : N → N

pub record Client (N : Type 0) : Type 0 where
  pub connected : Bool
  pub net : N
  pub session_id : ℕ
  pub root_node_id : ℕ
  pub next_req_id : ℕ
  pub state : RuntimeState

pub data CallError : Type 0 where
  not_connected bad_error_payload bad_payload : CallError
  write_failed : Text → CallError
  bad_frame : FrameError → CallError
  -- want, got
  id_mismatch : ℕ → ℕ → CallError
  answered : ErrorCode → Text → CallError

-- The state of New.
unfoldable pub new_state : RuntimeState
new_state = record {
  client_name = codes "devmount-client";
  client_version = codes "0.6.0";
  client_instance_id = [];
  mount_name = codes "workspace-dev";
  lease_seconds = 0;
  session_expires_at = [];
  session_state = [];
  principal_id = [];
  display_name = [];
  granted_features = [];
  server_name = [];
  server_version = [];
  selected_protocol_version = 0;
  server_capabilities = [];
  last_heartbeat_at = 0;
  last_heartbeat_error = [];
  tracked_handles = Map.empty;
  tracked_dir_cursors = Map.empty;
  tracked_watches = Map.empty;
  tracked_nodes = Map.insert Map.empty 1 tt;
}

-- New, with a connection that Connect has still to open.
unfoldable pub new_client : {N : Type 0} → N → Client N
unfolding new_state
new_client net = record {
  connected = false;
  net = net;
  session_id = 0;
  root_node_id = 1;
  next_req_id = 1;
  state = new_state;
}

unfoldable pub has_error_flag : ℕ → Bool
has_error_flag flags = eqb (flags / Flag.error % 2) 1

unfoldable pub request_header : ℕ → ℕ → ℕ → ℕ → Header
request_header channel opcode request_id session_id = record {
  magic = [];
  version = 0;
  header_length = 0;
  channel = channel;
  opcode = opcode;
  flags = Flag.request;
  request_id = request_id;
  session_id = session_id;
  payload_length = 0;
}

-- `error_resp` decodes an ErrorResp.
module _ {N : Type 0} (conn : Conn N) (error_resp : Text → Option (ErrorCode × Text)) where
  unfoldable pub check_reply : ℕ → Header → Text → Result CallError Text
  unfolding has_error_flag
  check_reply id header payload =
      if not (eqb header.request_id id)
      then err (id_mismatch id header.request_id)
      else if has_error_flag header.flags
      then elim (error_resp payload) [
        | none ↦ err bad_error_payload
        | some (code, message) ↦ err (answered code message)
      ]
      else ok payload

  unfoldable pub read_reply : ℕ → N → Result CallError Text × N
  unfolding check_reply
  read_reply id net = elim (decode_frame (conn.arriving net)) [
    | err e ↦ (err (bad_frame e), conn.broken net)
    | ok (header, payload, rest) ↦ (check_reply id header payload, conn.left net rest)
  ]

  unfoldable pub exchange : ℕ → N → Text → Result CallError Text × N
  unfolding read_reply
  exchange id net frame =
      let (failed, net') = conn.write net frame in
      elim failed [ some e ↦ (err (write_failed e), net') | none ↦ read_reply id net' ]

  -- The payload of the answer.
  unfoldable pub request : ℕ → ℕ → Text → Client N → Result CallError Text × Client N
  unfolding exchange request_header
  request channel opcode payload c =
      if not c.connected
      then (err not_connected, c)
      else (let id = next_u64 c.next_req_id in
          let header = request_header channel opcode id c.session_id in
          let (r, net) = exchange id c.net (encode_frame header payload) in
          (r, record c { next_req_id = id; net = net }))
