-- ===== src/Control.antt =====
-- internal/server/server.go: the control channel, one connection's state, and the test that the
-- other channels make. `now` is the value of s.Now(). Answers are values here; their frames are in
-- Dispatch/Reply. The server's names and the features it lists are not modelled.
pub mod Access
use net_drive.Prelude.{
  ℕ, Bool, true, false, Option, none, some, List, [], ◌∷◌, eqb, ltb, if◌then◌else◌, not, ◌||◌, ◌==◌,
  text_eq, text_beq,
}
use net_drive.Prelude.Text.{Text, codes}
use net_drive.Protocol.Channel
use net_drive.Protocol.Opcode
use net_drive.Protocol.{
  version, Header, ErrorCode, invalid_request, unsupported_version, unsupported_op, auth_required,
  session_expired, session_not_found, access_denied,
}
use net_drive.Session.{
  Session, State, SessionManager, create, heartbeat, resume, validate_active, active,
}

pub record ConnectionState : Type 0 where
  pub hello_done : Bool
  pub authenticated : Bool
  pub principal_id : Text

-- state := connectionState{…} of handleConn
unfoldable pub new_connection : ConnectionState
new_connection = record { hello_done = false; authenticated = false; principal_id = [] }

pub data Reply : Type 0 where
  failed : ErrorCode → Reply
  hello_done : ℕ → Reply
  auth_done : Text → Reply
  -- the opcode of the answer, and the session that it describes
  session_info : ℕ → Session → Reply

-- transport.DecodePayload of each request; `none` where it fails.
pub record Decoders : Type 0 where
  -- the versions that the client supports
  pub hello : Text → Option (List ℕ)
  -- scheme, token
  pub auth : Text → Option (Text × Text)
  -- client instance, lease
  pub create_session : Text → Option (Text × ℕ)
  -- session, client instance
  pub resume_session : Text → Option (ℕ × Text)
  pub heartbeat : Text → Option ℕ

-- What a frame on the control channel asks for.
pub data Request : Type 0 where
  hello : Option (List ℕ) → Request
  auth : Option (Text × Text) → Request
  create_session : Option (Text × ℕ) → Request
  resume_session : Option (ℕ × Text) → Request
  heartbeats : Option ℕ → Request
  unsupported : ℕ → Request

-- The switch of dispatchControl on the opcode.
unfoldable pub read_request : Decoders → ℕ → Text → Request
read_request d opcode payload =
    if eqb opcode Opcode.hello_req
    then hello (d.hello payload)
    else if eqb opcode Opcode.auth_req
    then auth (d.auth payload)
    else if eqb opcode Opcode.create_session_req
    then create_session (d.create_session payload)
    else if eqb opcode Opcode.resume_session_req
    then resume_session (d.resume_session payload)
    else if eqb opcode Opcode.heartbeat_req
    then heartbeats (d.heartbeat payload)
    else unsupported opcode

unfoldable pub select_version : List ℕ → ℕ
select_version [] = 0
select_version (v ∷ versions) =
    let rest = select_version versions in if eqb v version then v else rest

unfoldable pub clamp_lease : ℕ → ℕ
clamp_lease requested =
    let lease = if eqb requested 0 then 30 else requested in if ltb 300 lease then 300 else lease

abbrev pub Served : Type 0
Served = ConnectionState × SessionManager × Reply

unfoldable pub serve_hello : ConnectionState → SessionManager → List ℕ → Served
unfolding select_version
serve_hello c m versions =
    let selected = select_version versions in
    if eqb selected 0
    then (c, m, failed unsupported_version)
    else (record c { hello_done = true }, m, hello_done selected)

unfoldable pub serve_auth : Text → ConnectionState → SessionManager → Option (Text × Text) → Served
unfolding text_beq
serve_auth token c m request =
    if not c.hello_done then (c, m, failed invalid_request) else elim request [
      | none ↦ (c, m, failed invalid_request)
      | some (scheme, given) ↦
          if not (scheme == codes "dev-token") || not (given == token)
          then (c, m, failed auth_required)
          else (
            record c { authenticated = true; principal_id = codes "developer" },
            m,
            auth_done (codes "developer"),
          )
    ]

unfoldable pub serve_create : ConnectionState → SessionManager → ℕ → Option (Text × ℕ) → Served
unfolding clamp_lease
serve_create c m now request =
    if not c.authenticated then (c, m, failed auth_required) else elim request [
      | none ↦ (c, m, failed invalid_request)
      | some (instance_id, requested) ↦
          let (m', s) = create m c.principal_id instance_id (clamp_lease requested) now in
          (c, m', session_info Opcode.create_session_resp s)
    ]

unfoldable pub serve_resume : ConnectionState → SessionManager → ℕ → ℕ × Text → Served
serve_resume c m now (id, instance_id) =
    let (m', (s, found, is_active, matched)) = resume m id instance_id now in
    if not found
    then (c, m', failed session_not_found)
    else if not matched
    then (c, m', failed access_denied)
    else if not is_active
    then (c, m', failed session_expired)
    else (
      record c { authenticated = true; principal_id = s.principal_id },
      m',
      session_info Opcode.resume_session_resp s,
    )

unfoldable pub serve_heartbeat : ConnectionState → SessionManager → ℕ → ℕ → Served
serve_heartbeat c m now id =
    let (m', (s, found, is_active)) = heartbeat m id now in
    if not found
    then (c, m', failed session_not_found)
    else if not is_active
    then (c, m', failed session_expired)
    else (c, m', session_info Opcode.heartbeat_resp s)

unfoldable pub dispatch_control : Text → ConnectionState → SessionManager → ℕ → Request → Served
unfolding serve_hello serve_auth serve_create serve_resume serve_heartbeat
dispatch_control token c m now (hello none) = (c, m, failed invalid_request)
dispatch_control token c m now (hello (some versions)) = serve_hello c m versions
dispatch_control token c m now (auth request) = serve_auth token c m request
dispatch_control token c m now (create_session request) = serve_create c m now request
dispatch_control token c m now (resume_session none) = (c, m, failed invalid_request)
dispatch_control token c m now (resume_session (some request)) = serve_resume c m now request
dispatch_control token c m now (heartbeats none) = (c, m, failed invalid_request)
dispatch_control token c m now (heartbeats (some id)) = serve_heartbeat c m now id
dispatch_control token c m now (unsupported opcode) = (c, m, failed unsupported_op)

-- `none` where the request may go on
unfoldable pub require_active_session : SessionManager → ℕ → ℕ → Option ErrorCode
require_active_session m id now =
    let (s, found, is_active) = validate_active m id now in
    if not found
    then some session_not_found
    else if not is_active
    then some session_expired
    else none

-- Where a frame goes: to the control channel, to the handler of another channel, or to an error.
pub data Route : Type 0 where
  to_control : Route
  to_channel : ℕ → Route
  refused : ErrorCode → Route

unfoldable pub is_session_channel : ℕ → Bool
is_session_channel channel =
    eqb channel Channel.metadata
    || eqb channel Channel.bulk
    || eqb channel Channel.events
    || eqb channel Channel.recovery

unfoldable pub route : SessionManager → ℕ → Header → Route
unfolding require_active_session is_session_channel
route m now header =
    if eqb header.channel Channel.control
    then to_control
    else if is_session_channel header.channel
    then elim (require_active_session m header.session_id now) [
      | none ↦ to_channel header.channel
      | some code ↦ refused code
    ]
    else refused unsupported_op
