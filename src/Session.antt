-- ===== src/Session.antt =====
-- internal/server/session_manager.go. Times are nanoseconds; `now` is an argument, as in the code.
pub mod Lease
pub mod Invariant
pub mod Expiry
use net_drive.Prelude.{
  ℕ, ◌+◌, ◌*◌, ◌%◌, ◌^◌, Bool, true, false, Option, none, some, [], ltb, ◌||◌, not, if◌then◌else◌,
  ◌==◌, text_eq, nat_eq,
}
use net_drive.Prelude.Map
use net_drive.Prelude.Map.{Map}
use net_drive.Prelude.Text.{Text}
use net_drive.Prelude.Words.{next_u64}

-- The field `State` holds one of two strings.
pub data State : Type 0 where
  active expired : State

unfoldable pub is_active : State → Bool
is_active active = true
is_active expired = false

pub record Session : Type 0 where
  pub id : ℕ
  pub principal_id : Text
  pub client_instance_id : Text
  pub lease_seconds : ℕ
  pub expires_at : ℕ
  pub state : State

-- Session{}; its `State` is "", and nobody reads it.
abbrev pub no_session : Session
no_session = record {
  id = 0;
  principal_id = [];
  client_instance_id = [];
  lease_seconds = 0;
  expires_at = 0;
  state = expired;
}

pub record SessionManager : Type 0 where
  pub next_id : ℕ
  pub sessions : Map ℕ Session

unfoldable pub new_session_manager : SessionManager
new_session_manager = record { next_id = 1000; sessions = Map.empty }

-- time.Duration(leaseSeconds) * time.Second
abbrev pub lease_ns : ℕ → ℕ
lease_ns seconds = seconds * 1_000_000_000

unfoldable pub create : SessionManager → Text → Text → ℕ → ℕ → SessionManager × Session
create m principal_id client_instance_id lease_seconds now =
    let id = next_u64 m.next_id in
    let s : Session = record {
      id = id;
      principal_id = principal_id;
      client_instance_id = client_instance_id;
      lease_seconds = lease_seconds;
      expires_at = now + lease_ns lease_seconds;
      state = active;
    } in
    (record { next_id = id; sessions = Map.insert m.sessions id s }, s)

-- The session after a test that it has run out, and after a renewal.
unfoldable pub expire : Session → Session
expire s = record s { state = expired }

unfoldable pub renew : Session → ℕ → Session
renew s now = record s { expires_at = now + lease_ns s.lease_seconds; state = active }

unfoldable pub store : SessionManager → ℕ → Session → SessionManager
store m id s = record m { sessions = Map.insert m.sessions id s }

-- (session, found, active)
unfoldable pub heartbeat : SessionManager → ℕ → ℕ → SessionManager × (Session × Bool × Bool)
unfolding expire renew store
heartbeat m id now = elim (Map.get m.sessions id) [
  | none ↦ (m, (no_session, false, false))
  | some s ↦
      if ltb s.expires_at now
      then (store m id (expire s), (expire s, true, false))
      else (store m id (renew s now), (renew s now, true, true))
]

unfoldable pub validate_active : SessionManager → ℕ → ℕ → Session × Bool × Bool
unfolding is_active
validate_active m id now = elim (Map.get m.sessions id) [
  | none ↦ (no_session, false, false)
  | some s ↦
      if ltb s.expires_at now || not (is_active s.state) then (s, true, false) else (s, true, true)
]

-- (session, found, active, matched)
unfoldable pub resume :
    SessionManager → ℕ → Text → ℕ → SessionManager × (Session × Bool × Bool × Bool)
unfolding is_active expire renew store
resume m id client_instance_id now = elim (Map.get m.sessions id) [
  | none ↦ (m, (no_session, false, false, false))
  | some s ↦
      if not (s.client_instance_id == client_instance_id)
      then (m, (s, true, false, false))
      else if ltb s.expires_at now || not (is_active s.state)
      then (store m id (expire s), (expire s, true, false, true))
      else (store m id (renew s now), (renew s now, true, true, true))
]

-- The calls that change the manager, each at a time.
pub data Call : Type 0 where
  creates : Text → Text → ℕ → Call
  heartbeats : ℕ → Call
  resumes : ℕ → Text → Call

unfoldable pub step : SessionManager → ℕ → Call → SessionManager
step m now (creates principal instance_id lease) = (create m principal instance_id lease now).0
step m now (heartbeats id) = (heartbeat m id now).0
step m now (resumes id instance_id) = (resume m id instance_id now).0
