-- ===== src/Dispatch/Fits.antt =====
-- internal/server/server.go: the opcode and the session of an answer fit their Go types.
use net_drive.Prelude.{
  ℕ, ◌^◌, ◌<◌, ◌≡◌, Option-cases, inl, inr, none, some, arith, Result, ok, err, nat_eq, text_eq,
}
use net_drive.Prelude.Map
use net_drive.Prelude.Text.{Text}
use net_drive.Protocol.{Header, ErrorCode}
use net_drive.Session.{SessionManager, Session, create, heartbeat, resume, expire, renew}
use net_drive.Control
use net_drive.Control.{
  Reply, ConnectionState, hello, auth, create_session, resume_session, heartbeats, unsupported,
  serve_hello, serve_auth, serve_create, serve_resume, serve_heartbeat, dispatch_control, route,
  to_control, to_channel, refused, Route, read_request,
}
use net_drive.Dispatch.Defs.{Response}
use net_drive.Dispatch.Serve.{opcode_of, serve_frame}
use net_drive.Dispatch.Reply.{Encoders, Sent, send_response, send_control}
use net_drive.Dispatch.Connection.{ServerState, Host, dispatch_to, dispatch}

-- 0 where the answer is an error.
unfoldable pub sent_opcode : Result ErrorCode Sent → ℕ
sent_opcode (err code) = 0
sent_opcode (ok sent) = sent.opcode

unfoldable pub sent_session : Result ErrorCode Sent → ℕ
sent_session (err code) = 0
sent_session (ok sent) = sent.session_id

-- The numbers of the sessions fit a uint64.
abbrev pub HasNumbers : SessionManager → Type 0
HasNumbers m = (id : ℕ) (s : Session) → Map.get m.sessions id ≡ some s → s.id < 2 ^ 64

Fits : Result ErrorCode Sent → Type 0
Fits r = (sent_opcode r < 2 ^ 8) × (sent_session r < 2 ^ 64)

opcode_of-bound : (resp : Response) → opcode_of resp < 2 ^ 8
unfolding opcode_of
opcode_of-bound resp = ground arith

send_response-Fits :
    (enc : Encoders) (h : Header) (r : Result ErrorCode Response)
    → h.session_id < 2 ^ 64
    → Fits (send_response enc h r)
unfolding send_response Fits sent_opcode sent_session
send_response-Fits enc h (err code) bound = (omega arith, omega arith)
send_response-Fits enc h (ok resp) bound = (opcode_of-bound resp, bound)

dispatch_control-Fits :
    (enc : Encoders) (token : Text) (c : ConnectionState) (m : SessionManager) (now : ℕ)
    (request : Control.Request)
    → HasNumbers m
    → Fits (send_control enc now (dispatch_control token c m now request).2)
unfolding dispatch_control serve_hello serve_auth serve_create serve_resume serve_heartbeat create
    heartbeat resume expire renew send_control Fits sent_opcode sent_session
dispatch_control-Fits enc token c m now (hello none) h = (ground arith, ground arith)
dispatch_control-Fits enc token c m now (hello (some versions)) h = (ground arith, ground arith)
dispatch_control-Fits enc token c m now (auth none) h = (ground arith, ground arith)
dispatch_control-Fits enc token c m now (auth (some (scheme, given))) h =
    (ground arith, ground arith)
dispatch_control-Fits enc token c m now (create_session none) h = (ground arith, ground arith)
dispatch_control-Fits enc token c m now (create_session (some (instance_id, lease))) h =
    (ground arith, ground arith)
dispatch_control-Fits enc token c m now (resume_session none) h = (ground arith, ground arith)
dispatch_control-Fits enc token c m now (resume_session (some (id, instance_id))) h =
    elim (Option-cases (Map.get m.sessions id)) [
      | inl e ↦ (ground arith, ground arith)
      | inr (s, e) ↦ let bound = h id s e in (ground arith, ground arith)
    ]
dispatch_control-Fits enc token c m now (heartbeats none) h = (ground arith, ground arith)
dispatch_control-Fits enc token c m now (heartbeats (some id)) h =
    elim (Option-cases (Map.get m.sessions id)) [
      | inl e ↦ (ground arith, ground arith)
      | inr (s, e) ↦ let bound = h id s e in (ground arith, ground arith)
    ]
dispatch_control-Fits enc token c m now (unsupported opcode) h = (ground arith, ground arith)

dispatch_to-Fits :
    {W : Type 0} (host : Host W) (r : Route) (now : ℕ) (h : Header) (payload : Text)
    (s : ServerState W)
    → h.session_id < 2 ^ 64
    → HasNumbers s.sessions
    → Fits (dispatch_to host r now h payload s).0
unfolding dispatch_to
dispatch_to-Fits host to_control now h payload s bound numbers =
    dispatch_control-Fits host.encoders host.token s.connection s.sessions now
      (read_request host.control_decoders h.opcode payload) numbers
dispatch_to-Fits host (to_channel channel) now h payload s bound numbers =
    send_response-Fits host.encoders h (serve_frame host.services host.decoders h payload s.site).0
      bound
dispatch_to-Fits host (refused code) now h payload s bound numbers =
    unfold Fits sent_opcode sent_session in (omega arith, omega arith)

pub dispatch-Fits :
    {W : Type 0} (host : Host W) (now : ℕ) (h : Header) (payload : Text) (s : ServerState W)
    → h.session_id < 2 ^ 64
    → HasNumbers s.sessions
    → (sent_opcode (dispatch host now h payload s).0 < 2 ^ 8)
      × (sent_session (dispatch host now h payload s).0 < 2 ^ 64)
unfolding dispatch Fits
dispatch-Fits host now h payload s = dispatch_to-Fits host (route s.sessions now h) now h payload s
