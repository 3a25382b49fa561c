-- ===== src/Control/Access.antt =====
-- Who gets past the control channel of internal/server/server.go.
use net_drive.Prelude.{
  ℕ, ◌≡◌, refl, sym, subst, ◌∙◌, ◌+◌, Bool, true, false, none, some, List, [], ◌∷◌, arith, ◌&&◌,
  ◌==◌, text_eq, nat_eq, leb, eqb, min, if◌then◌else◌,
}
use net_drive.Prelude.Map
use net_drive.Prelude.Map.{get-insert}
use net_drive.Prelude.Text.{Text, codes}
use net_drive.Prelude.Words.{next_u64}
use net_drive.Protocol.Opcode
use net_drive.Protocol.{Header}
use net_drive.Session.{
  Session, SessionManager, create, heartbeat, resume, validate_active, lease_ns,
}
use net_drive.Control.{
  ConnectionState, Request, hello, auth, create_session, resume_session, heartbeats, unsupported,
  dispatch_control, serve_create, route, refused, clamp_lease, to_channel, is_session_channel,
  session_expired, require_active_session, session_info,
}

-- A request with the server's token.
unfoldable pub carries_token : Text → Request → Bool
carries_token token (auth (some (scheme, given))) = scheme == codes "dev-token" && given == token
carries_token token _ = false

-- A connection's requests, each with its time.
unfoldable pub serve_all :
    Text → ConnectionState → SessionManager → List (ℕ × Request) → ConnectionState × SessionManager
serve_all token c m [] = (c, m)
serve_all token c m ((now, request) ∷ requests) =
    let (c', m', _) = dispatch_control token c m now request in serve_all token c' m' requests

unfoldable pub WithoutToken : Text → List (ℕ × Request) → Type 0
WithoutToken token [] = Unit {0}
WithoutToken token ((now, request) ∷ requests) =
    (carries_token token request ≡ false) × WithoutToken token requests

abbrev pub HasNoSession : SessionManager → Type 0
HasNoSession m = (id : ℕ) → Map.get m.sessions id ≡ none

dispatch_control-denies :
    (token : Text) (c : ConnectionState) (m : SessionManager) (now : ℕ) (request : Request)
    → carries_token token request ≡ false
    → c.authenticated ≡ false
    → HasNoSession m
    → ((dispatch_control token c m now request).0.authenticated ≡ false)
      × ((dispatch_control token c m now request).1 ≡ m)
unfolding carries_token dispatch_control resume heartbeat
dispatch_control-denies token c m now (hello none) h a e = ground arith
dispatch_control-denies token c m now (hello (some versions)) h a e = ground arith
dispatch_control-denies token c m now (auth none) h a e = ground arith
dispatch_control-denies token c m now (auth (some (scheme, given))) h a e = ground arith
dispatch_control-denies token c m now (create_session request) h a e = ground arith
dispatch_control-denies token c m now (resume_session none) h a e = ground arith
dispatch_control-denies token c m now (resume_session (some (id, instance_id))) h a e =
    ground (arith, e id)
dispatch_control-denies token c m now (heartbeats none) h a e = ground arith
dispatch_control-denies token c m now (heartbeats (some id)) h a e = ground (arith, e id)
dispatch_control-denies token c m now (unsupported opcode) h a e = ground arith

-- On a server without sessions, a connection that is not authenticated and that never sends the
-- server's token is not authenticated after any of its requests, and has made no session.
pub serve_all-denies :
    (token : Text) (c : ConnectionState) (m : SessionManager) (requests : List (ℕ × Request))
    → WithoutToken token requests
    → c.authenticated ≡ false
    → HasNoSession m
    → ((serve_all token c m requests).0.authenticated ≡ false)
      × ((serve_all token c m requests).1 ≡ m)
unfolding serve_all WithoutToken
serve_all-denies token c m [] h a e = (a, refl)
serve_all-denies token c m ((now, request) ∷ requests) (h, hs) a e =
    let (a', same) = dispatch_control-denies token c m now request h a e in
    let (a'', kept) =
      serve_all-denies token (dispatch_control token c m now request).0
        (dispatch_control token c m now request).1 requests hs a'
        (subst HasNoSession (sym same) e) in
    (a'', kept ∙ same)

-- The lease for a request of so many seconds.
abbrev pub granted : ℕ → ℕ
granted requested = if eqb requested 0 then 30 else min requested 300

clamp_lease-granted : (requested : ℕ) → clamp_lease requested ≡ granted requested
unfolding clamp_lease
clamp_lease-granted requested = ground arith

-- CreateSession of a connection that is authenticated answers with a session that has the next
-- number and a lease of as many seconds as were asked for, of 300 where more were asked for, and
-- of 30 where 0 were. After it, a frame that names this session on one of the four channels that
-- need a session reaches its handler up to the instant at which that lease runs out, and is
-- refused as expired at any later time.
pub route-create :
    (c : ConnectionState) (m : SessionManager) (now later requested : ℕ) (instance_id : Text)
    (header : Header)
    → is_session_channel header.channel ≡ true
    → header.session_id ≡ next_u64 m.next_id
    → c.authenticated ≡ true
    → ((s : Session) × ((serve_create c m now (some (instance_id, requested))).2
          ≡ session_info Opcode.create_session_resp s)
        × (s.id ≡ next_u64 m.next_id)
        × (s.lease_seconds ≡ granted requested))
      × (route (serve_create c m now (some (instance_id, requested))).1 later header ≡ (
          if leb later (now + lease_ns (granted requested))
          then to_channel header.channel
          else refused session_expired))
unfolding route serve_create is_session_channel require_active_session create validate_active
route-create c m now later requested instance_id header h e a =
    let m' = create m c.principal_id instance_id (granted requested) now in
    rw (clamp_lease-granted requested, a)
      (
        (m'.1, refl, refl, refl),
        ground (arith, get-insert m.sessions (next_u64 m.next_id) m'.1 header.session_id),
      )
