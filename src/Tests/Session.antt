-- ===== src/Tests/Session.antt =====
-- One session with a lease of 30 seconds.
use net_drive.Prelude.{
  ℕ, ◌≡◌, refl, true, false, [], ◌∷◌, arith, nat_eq, some, text_beq, List, ◌+◌, ◌<◌, ◌&&◌,
}
use net_drive.Prelude.Map
use net_drive.Prelude.Text.{codes}
use net_drive.Prelude.Words.{u64_mod}
use net_drive.Session.{
  SessionManager, Session, Call, new_session_manager, create, heartbeat, resume, creates,
  heartbeats, resumes, active, validate_active, step, store,
}
use net_drive.Session.Lease.{is_live, validate_active-create, heartbeat_lem, resume_lem}
use net_drive.Session.Invariant.{IsValid, IsValid-new, IsValid-later}
use net_drive.Session.Expiry.{run, run-IsValid, expired_forever}

abbrev session : Session
session = record {
  id = 1001;
  principal_id = codes "developer";
  client_instance_id = codes "c1";
  lease_seconds = 30;
  expires_at = 30_000_000_000;
  state = active;
}

manager : SessionManager
unfolding create new_session_manager
manager = (create new_session_manager (codes "developer") (codes "c1") 30 0).0

stored : Map.get manager.sessions 1001 ≡ some session
unfolding manager Map.get Map.insert
stored = refl

validate_active-create_example : is_live manager 1001 30_000_000_001 ≡ (true, false)
unfolding manager
validate_active-create_example =
    validate_active-create new_session_manager (codes "developer") (codes "c1") 30 0 30_000_000_001

heartbeat_lem_example :
    ((heartbeat manager 1001 20_000_000_000).1.1 ≡ true)
    × ((heartbeat manager 1001 20_000_000_000).1.2 ≡ true)
    × (is_live (heartbeat manager 1001 20_000_000_000).0 1001 50_000_000_000 ≡ (true, true))
heartbeat_lem_example =
    heartbeat_lem manager 1001 20_000_000_000 1001 50_000_000_000 session stored (λ e. cc)
      (omega arith)

abbrev early : ℕ
early = 20_000_000_000

resume_lem_example :
    let (m', (s', found, is_active, is_matched)) = resume manager 1001 (codes "c1") early in
    (found ≡ true)
    × (is_active ≡ (validate_active manager 1001 early).2)
    × (is_matched ≡ true)
    × (m' ≡ store manager 1001 s')
    × (is_live m' 1001 50_000_000_000 ≡ (true, (validate_active manager 1001 early).2 && true))
unfolding text_beq
resume_lem_example = resume_lem manager 1001 early 1001 50_000_000_000 (codes "c1") session stored

abbrev late_calls : List (ℕ × Call)
late_calls = (40_000_000_000, heartbeats 1001) ∷ (41_000_000_000, resumes 1001 (codes "c1")) ∷ []

abbrev first_call : List (ℕ × Call)
first_call = (0, creates (codes "developer") (codes "c1") 30) ∷ []

run-IsValid_example : IsValid (run new_session_manager first_call) 0
unfolding new_session_manager
run-IsValid_example =
    run-IsValid new_session_manager 0 first_call (IsValid-new 0) (omega arith, tt) (omega arith)

opened : SessionManager
unfolding new_session_manager
opened = run new_session_manager first_call

opened-IsValid : IsValid opened 31_000_000_000
unfolding opened
opened-IsValid =
    IsValid-later _ 0 31_000_000_000
      (run-IsValid new_session_manager 0 first_call (IsValid-new 0) (omega arith, tt) (omega arith))
      (omega arith)

opened-dead : is_live opened 1001 31_000_000_000 ≡ (true, false)
unfolding opened run step create validate_active Map.get Map.insert
opened-dead = refl

opened-room : opened.next_id + 2 < u64_mod
unfolding opened run step create
opened-room = omega arith

expired_forever_example : is_live (run opened late_calls) 1001 50_000_000_000 ≡ (true, false)
expired_forever_example =
    expired_forever opened 31_000_000_000 1001 50_000_000_000 late_calls opened-IsValid
      (omega arith) opened-room opened-dead (omega arith)
