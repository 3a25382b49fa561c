-- ===== src/Tests/Calls.antt =====
-- A client and a server over one connection, and a client that is not connected.
use net_drive.Prelude.{
  ℕ, ◌+◌, ◌^◌, ◌<◌, ◌≡◌, refl, true, false, Option, none, some, List, [], ◌∷◌, Result, ok, err,
  arith, length, get_elem?, nat_eq,
}
use net_drive.Prelude.Words.{next_u64}
use net_drive.Prelude.Text.{Text, codes}
use net_drive.Prelude.Map
use net_drive.Prelude.Map.{get-insert}
use net_drive.Protocol.{ErrorCode, Header}
use net_drive.Protocol.Channel
use net_drive.Protocol.Opcode
use net_drive.Transport.{stamp}
use net_drive.Session.{Session, create, new_session_manager, validate_active}
use net_drive.Control.{
  new_connection, route, to_channel, require_active_session, is_session_channel, read_request,
  dispatch_control, select_version,
}
use net_drive.Dispatch.Defs.{Request, Response}
use net_drive.Dispatch.Decode.{Decoders}
use net_drive.Dispatch.Serve.{serve_frame}
use net_drive.Dispatch.Reply.{Encoders, reply_body, send_response}
use net_drive.Dispatch.Connection.{ServerState, Host, dispatch}
use net_drive.Dispatch.Fits.{HasNumbers}
use net_drive.Client.Wire.{Client, not_connected, new_client, request, request_header}
use net_drive.Client.Loop.{loopback, received, request-dispatch}
use net_drive.Client.Calls.Defs.{
  Services, ◌>>=◌, ◌>>◌, request_decode, get, set_session_id, attempt, fail,
}
use net_drive.Client.Calls.Session.{resume_session, finish_resume}
use net_drive.Client.Calls.Files.{open_handle}
use net_drive.Client.Calls.Rules.{known}
use net_drive.Client.Calls.Failures.{call_of, call_of-err, resume_session-err}
use net_drive.Tests.Dispatch.{services, site}

abbrev number : ErrorCode → ℕ
number ErrorCode.invalid_request = 0
number ErrorCode.unsupported_version = 1
number ErrorCode.unsupported_op = 2
number ErrorCode.auth_required = 3
number ErrorCode.session_expired = 4
number ErrorCode.session_not_found = 5
number ErrorCode.capability_mismatch = 6
number ErrorCode.not_found = 7
number ErrorCode.already_exists = 8
number ErrorCode.not_dir = 9
number ErrorCode.is_dir = 10
number ErrorCode.invalid_handle = 11
number ErrorCode.access_denied = 12
number ErrorCode.watch_not_found = 13
number ErrorCode.recovery_failed = 14
number ErrorCode.internal = 15

abbrev number_codes : List ErrorCode
number_codes =
    ErrorCode.invalid_request ∷ ErrorCode.unsupported_version ∷ ErrorCode.unsupported_op
    ∷ ErrorCode.auth_required ∷ ErrorCode.session_expired ∷ ErrorCode.session_not_found
    ∷ ErrorCode.capability_mismatch ∷ ErrorCode.not_found ∷ ErrorCode.already_exists
    ∷ ErrorCode.not_dir ∷ ErrorCode.is_dir ∷ ErrorCode.invalid_handle ∷ ErrorCode.access_denied
    ∷ ErrorCode.watch_not_found ∷ ErrorCode.recovery_failed ∷ ErrorCode.internal ∷ []

abbrev error_resp : Text → Option (ErrorCode × Text)
error_resp [] = none
error_resp (n ∷ bytes) = elim (get_elem? number_codes n) [
  | none ↦ none
  | some code ↦ some (code, bytes)
]

abbrev encoders : Encoders
encoders = record {
  response = λ r. codes "{}";
  control = λ now r. codes "{}";
  error = λ code. number code ∷ [];
}

law : (code : ErrorCode) → error_resp (encoders.error code) ≡ some (code, [])
law code = ground arith

abbrev decoders : Decoders
decoders = record {
  lookup_req = λ b. none;
  get_attr_req = λ b. some 1;
  open_dir_req = λ b. some 1;
  close_dir_req = λ b. none;
  read_dir_req = λ b. none;
  rename_req = λ b. none;
  open_req = λ b. none;
  create_req = λ b. none;
  read_req = λ b. none;
  write_req = λ b. none;
  flush_req = λ b. none;
  close_req = λ b. none;
  truncate_req = λ b. none;
  set_delete_on_close_req = λ b. none;
  subscribe_req = λ b. none;
  poll_events_req = λ b. none;
  ack_events_req = λ b. none;
  resync_req = λ b. none;
  recover_handles_req = λ b. none;
  revalidate_req = λ b. none;
  resubscribe_req = λ b. none;
}

abbrev host : Host Text
host = record {
  services = services;
  decoders = decoders;
  control_decoders = record {
    hello = λ b. some (1 ∷ []);
    auth = λ b. none;
    create_session = λ b. none;
    resume_session = λ b. none;
    heartbeat = λ b. none;
  };
  encoders = encoders;
  token = codes "devmount-dev-token";
}

-- a server with the session 1001, which lives until 30 seconds after the start
abbrev state : ServerState Text
state = record {
  connection = new_connection;
  sessions = (create new_session_manager (codes "developer") (codes "c1") 30 0).0;
  site = site;
}

state-HasNumbers : HasNumbers state.sessions
unfolding create new_session_manager
state-HasNumbers id s e = ground (
  arith,
  get-insert Map.empty 1001 (create new_session_manager (codes "developer") (codes "c1") 30 0).1 id,
  Map.get-empty {V = Session} id,
)

abbrev client : Client (ServerState Text × Text)
client = record (new_client (state, [])) { connected = true; session_id = 1001 }

abbrev get_attr : Header
get_attr =
    stamp (request_header Channel.metadata Opcode.get_attr_req (next_u64 client.next_req_id) 1001)
      (codes "{}")

reaches_test : route state.sessions 5 get_attr ≡ to_channel Channel.metadata
unfolding route require_active_session validate_active is_session_channel request_header stamp
    Map.get Map.insert create new_session_manager
reaches_test = refl

-- 31 seconds after the start the same frame is refused.
late_test :
    (dispatch host 31_000_000_000 get_attr (codes "{}") state).0 ≡ err ErrorCode.session_expired
unfolding dispatch route require_active_session validate_active is_session_channel request_header
    stamp Map.get Map.insert create new_session_manager
late_test = refl

-- A frame of the control channel needs no session.
hello_test :
    (dispatch host 5
      (record get_attr { channel = Channel.control; opcode = Opcode.hello_req; session_id = 7 })
      (codes "{}")
      state).0
    ≡ ok (record { opcode = Opcode.hello_resp; session_id = 0; payload = codes "{}" })
unfolding dispatch route request_header stamp read_request dispatch_control select_version
hello_test = refl

short :
    (r : Result ErrorCode Response)
    → 32 + length (reply_body encoders (send_response encoders get_attr r)) < 2 ^ 32
unfolding reply_body send_response
short (ok resp) = omega arith
short (err code) = omega arith

short_answer :
    32 + length (reply_body encoders (dispatch host 5 get_attr (codes "{}") state).0) < 2 ^ 32
unfolding dispatch
short_answer = rw reaches_test (short (serve_frame services decoders get_attr (codes "{}") site).0)

request-dispatch_example :
    let (r, s) = dispatch host 5 get_attr (codes "{}") state in
    let result =
      request
        (loopback host 5)
        error_resp
        Channel.metadata
        Opcode.get_attr_req
        (codes "{}")
        client in
    (result.0 ≡ received encoders (λ code. []) r) × (result.1.net ≡ (s, []))
unfolding new_client
request-dispatch_example =
    request-dispatch host 5 error_resp (λ code. []) client Channel.metadata Opcode.get_attr_req
      (codes "{}") state law refl refl (omega arith) (omega arith) (omega arith) state-HasNumbers
      (omega arith) short_answer

abbrev calls : Services (ServerState Text × Text)
calls = record {
  conn = loopback host 5;
  now = λ net. 0;
  control = λ r. [];
  encode = λ r. [];
  message = λ e. [];
  error_resp = error_resp;
  hello_resp = λ b. none;
  auth_resp = λ b. none;
  session_resp = λ b. none;
  heartbeat_resp = λ b. none;
  entry_resp = λ b. none;
  open_dir_resp = λ b. none;
  read_dir_resp = λ b. none;
  done_resp = λ b. none;
  open_resp = λ b. none;
  create_resp = λ b. none;
  read_resp = λ b. none;
  write_resp = λ b. none;
  truncate_resp = λ b. none;
  subscribe_resp = λ b. none;
  ack_resp = λ b. none;
  poll_resp = λ b. none;
  resync_resp = λ b. none;
  recover_resp = λ b. none;
  revalidate_resp = λ b. none;
  resubscribe_resp = λ b. none;
}

abbrev offline : Client (ServerState Text × Text)
offline = record (new_client (state, [])) { session_id = 1001 }

open_fails : (call_of calls (Request.open_file 2 true false) offline).0 ≡ err not_connected
unfolding call_of open_handle request_decode request ◌>>=◌ ◌>>◌ new_client
open_fails = refl

call_of-err_example :
    known (call_of calls (Request.open_file 2 true false) offline).1 ≡ known offline
call_of-err_example =
    call_of-err calls (Request.open_file 2 true false) offline not_connected open_fails

resume_fails : (resume_session calls 7 (codes "c1") offline).0 ≡ err not_connected
unfolding resume_session finish_resume request_decode request ◌>>=◌ ◌>>◌ get set_session_id attempt
    fail new_client
resume_fails = refl

resume_session-err_example : known (resume_session calls 7 (codes "c1") offline).1 ≡ known offline
resume_session-err_example =
    resume_session-err calls 7 (codes "c1") offline not_connected resume_fails
