-- ===== src/Client/Calls/Session.antt =====
-- internal/clientcore/session.go and heartbeat.go: the handshake of a client and its heartbeat.
use net_drive.Prelude.{ℕ, ◌*◌, ◌/◌, [], Result, ok, err, ltb, eqb, if◌then◌else◌}
use net_drive.Prelude.Text.{Text}
use net_drive.Protocol.Channel
use net_drive.Protocol.Opcode
use net_drive.Client.Tracking.{RuntimeState, set_heartbeat_result}
use net_drive.Client.Wire.{CallError}
use net_drive.Client.Calls.Defs.{
  ControlRequest, HelloResp, AuthResp, SessionResp, HeartbeatResp, Services, Call, ◌>>=◌, ◌>>◌,
  return, fail, attempt, get, set_session_id, remember, of_result, request_decode,
}

-- in nanoseconds
unfoldable pub heartbeat_interval : ℕ → ℕ
heartbeat_interval lease_seconds =
    let lease = if eqb lease_seconds 0 then 30 else lease_seconds in
    let interval = lease * 1_000_000_000 / 3 in
    if ltb interval (5 * 1_000_000_000) then 5 * 1_000_000_000 else interval

unfoldable pub remember_session : Text → SessionResp → RuntimeState → RuntimeState
remember_session instance_id resp st = record st {
  client_instance_id = instance_id;
  lease_seconds = resp.lease_seconds;
  session_expires_at = resp.expires_at;
  session_state = resp.state;
}

module _ {N : Type 0} (v : Services N) where
  unfoldable pub hello : Call N HelloResp
  hello = do
    c ← get
    resp ←
        request_decode v Channel.control Opcode.hello_req
          (v.control (ControlRequest.hello c.state.client_name c.state.client_version)) v.hello_resp
    remember (λ st. record st {
      server_name = resp.server_name;
      server_version = resp.server_version;
      selected_protocol_version = resp.selected_protocol_version;
      server_capabilities = resp.features;
    })
    return resp

  unfoldable pub auth : Text → Call N AuthResp
  auth token = do
    resp ←
        request_decode v Channel.control Opcode.auth_req (v.control (ControlRequest.auth token))
          v.auth_resp
    remember (λ st. record st {
      principal_id = resp.principal_id;
      display_name = resp.display_name;
      granted_features = resp.granted_features;
    })
    return resp

  unfoldable pub create_session : Text → ℕ → Call N SessionResp
  unfolding remember_session
  create_session instance_id lease_seconds = do
    c ← get
    resp ←
        request_decode v Channel.control Opcode.create_session_req
          (v.control (ControlRequest.create_session instance_id lease_seconds c.state.mount_name))
          v.session_resp
    set_session_id resp.session_id
    remember (remember_session instance_id resp)
    return resp

  -- What ResumeSession does with the answer; `prev` is the session before it.
  unfoldable pub finish_resume : ℕ → Text → Result CallError SessionResp → Call N SessionResp
  unfolding remember_session
  finish_resume prev instance_id (err e) = do set_session_id prev; fail e
  finish_resume prev instance_id (ok resp) = do
    set_session_id resp.session_id
    remember (remember_session instance_id resp)
    return resp

  unfoldable pub resume_session : ℕ → Text → Call N SessionResp
  unfolding finish_resume
  resume_session session_id instance_id = do
    c ← get
    set_session_id session_id
    answer ← attempt (
        request_decode v Channel.control Opcode.resume_session_req
          (v.control (ControlRequest.resume_session session_id instance_id)) v.session_resp)
    finish_resume c.session_id instance_id answer

  unfoldable pub error_text : {A : Type 0} → Result CallError A → Text
  error_text (ok a) = []
  error_text (err e) = v.message e

  unfoldable pub heartbeat : Call N HeartbeatResp
  unfolding error_text
  heartbeat = do
    c ← get
    answer ← attempt (
        request_decode v Channel.control Opcode.heartbeat_req
          (v.control (ControlRequest.heartbeat c.session_id)) v.heartbeat_resp)
    c' ← get
    remember (λ st. set_heartbeat_result st (error_text answer) (v.now c'.net))
    resp ← of_result answer
    remember (λ st. record st { session_expires_at = resp.expires_at; session_state = resp.state })
    return resp
