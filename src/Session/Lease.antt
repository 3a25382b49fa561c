-- ===== src/Session/Lease.antt =====
-- How long a session lives after each call that grants or renews its lease.
use net_drive.Prelude.{
  ℕ, ◌+◌, ◌≡◌, Bool, true, some, leb, arith, ◌==◌, ◌&&◌, if◌then◌else◌, ◌<◌, ◌≤◌, nat_eq, text_eq,
}
use net_drive.Prelude.Map
use net_drive.Prelude.Map.{map_laws, get-insert}
use net_drive.Prelude.Text.{Text}
use net_drive.Prelude.Words.{next_u64}
use net_drive.Session.{
  SessionManager, Session, lease_ns, create, heartbeat, resume, validate_active, expired, expire,
  renew, store,
}

-- The answer of ValidateActive, without the session.
abbrev pub is_live : SessionManager → ℕ → ℕ → Bool × Bool
is_live m id now = ((validate_active m id now).1, (validate_active m id now).2)

-- A session that Create returns is found from then on, and is active up to and including the
-- instant at which its lease runs out, and at no later one.
pub validate_active-create :
    (m : SessionManager) (principal instance_id : Text) (lease now later : ℕ)
    → is_live
        (create m principal instance_id lease now).0
        (create m principal instance_id lease now).1.id
        later
      ≡ (true, leb later (now + lease_ns lease))
unfolding create validate_active
validate_active-create m principal instance_id lease now later = ground (
  arith,
  get-insert m.sessions (next_u64 m.next_id) (create m principal instance_id lease now).1
      (next_u64 m.next_id),
)

-- Heartbeat answers with what ValidateActive would have found, whenever the state `expired` is
-- recorded only of sessions whose time has run out. A session that it finds active lives on to
-- the end of a full new lease; a session that it finds expired is not active at any later time;
-- and every other session is answered for as before.
pub heartbeat_lem :
    (m : SessionManager) (id now j later : ℕ) (s : Session)
    → Map.get m.sessions id ≡ some s
    → (s.state ≡ expired → s.expires_at < now)
    → now ≤ later
    → ((heartbeat m id now).1.1 ≡ true)
      × ((heartbeat m id now).1.2 ≡ leb now s.expires_at)
      × (is_live (heartbeat m id now).0 j later ≡ (
          if j == id
          then (true, leb now s.expires_at && leb later (now + lease_ns s.lease_seconds))
          else is_live m j later))
unfolding heartbeat validate_active
heartbeat_lem m id now j later s e dead le =
    ground (arith, get-insert m.sessions id (expire s) j, get-insert m.sessions id (renew s now) j)

-- Resume of a session that exists, whatever its state is. By the client instance that created it:
-- it is found active exactly if ValidateActive finds it active; then it lives on to the end of a
-- full new lease, and otherwise it is not active at any time after. By any other instance: it is
-- found but not matched, not found active, and the manager stays as it was. Every other session is
-- answered for as before.
pub resume_lem :
    (m : SessionManager) (id now j later : ℕ) (instance_id : Text) (s : Session)
    → Map.get m.sessions id ≡ some s
    → let matched = s.client_instance_id == instance_id in
      let live = (validate_active m id now).2 in
      let (m', (s', found, is_active, is_matched)) = resume m id instance_id now in
      (found ≡ true)
      × (is_active ≡ matched && live)
      × (is_matched ≡ matched)
      × (m' ≡ (if matched then store m id s' else m))
      × (is_live m' j later ≡ (
          if matched && j == id
          then (true, live && leb later (now + lease_ns s.lease_seconds))
          else is_live m j later))
unfolding resume validate_active
resume_lem m id now j later instance_id s e =
    ground (arith, get-insert m.sessions id (expire s) j, get-insert m.sessions id (renew s now) j)
