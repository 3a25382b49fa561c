-- ===== src/Session/Expiry.antt =====
-- Sessions over a history of calls, at times that do not go back.
use net_drive.Prelude.{
  ℕ, ◌+◌, ◌≡◌, true, false, some, eqb, arith, eqb_iff, ◌<◌, ◌≤◌, nat_eq, text_eq, List, [], ◌∷◌,
  length, Option-cases, Bool-cases, inl, inr,
}
use net_drive.Prelude.Map
use net_drive.Prelude.Map.{map_laws, get-insert}
use net_drive.Prelude.Words.{next_u64, u64_mod}
use net_drive.Session.{
  SessionManager, Session, create, heartbeat, resume, validate_active, expire, renew, store, Call,
  creates, heartbeats, resumes, step,
}
use net_drive.Session.Invariant.{IsValid, step-IsValid, heartbeat_cases, resume_cases}
use net_drive.Session.Lease.{is_live}

unfoldable pub run : SessionManager → List (ℕ × Call) → SessionManager
run m [] = m
run m ((now, c) ∷ calls) = run (step m now c) calls

-- The times do not go back, from `clock` on.
abbrev pub Ordered : ℕ → List (ℕ × Call) → Type 0
Ordered clock [] = Unit
Ordered clock ((now, c) ∷ calls) = (clock ≤ now) × Ordered now calls

abbrev pub last_time : ℕ → List (ℕ × Call) → ℕ
last_time clock [] = clock
last_time clock ((now, c) ∷ calls) = last_time now calls

next_id-step : (m : SessionManager) (now : ℕ) (c : Call) → (step m now c).next_id ≤ m.next_id + 1
unfolding step create heartbeat resume
next_id-step m now (creates p i lease) = omega arith
next_id-step m now (heartbeats id) = ground arith
next_id-step m now (resumes id i) = ground arith

-- From a valid table, after any history of calls at times that do not go back, and in which the id
-- counter has room for every call, the table is valid at the time of the last call.
pub run-IsValid :
    (m : SessionManager) (clock : ℕ) (calls : List (ℕ × Call))
    → IsValid m clock
    → Ordered clock calls
    → m.next_id + length calls < u64_mod
    → IsValid (run m calls) (last_time clock calls)
unfolding run
run-IsValid m clock [] v o room = v
run-IsValid m clock ((now, c) ∷ calls) v o room =
    run-IsValid (step m now c) now calls (step-IsValid m clock now c v o.0 (omega arith)) o.1
      (omega (arith, next_id-step m now c))

-- The session has run out before `t`.
abbrev Overdue : SessionManager → ℕ → ℕ → Type 0
Overdue m id t = (s : Session) × (Map.get m.sessions id ≡ some s) × (s.expires_at < t)

Overdue-store :
    (m : SessionManager) (id j t : ℕ) (s : Session)
    → Overdue m id t
    → (j ≡ id → s.expires_at < t)
    → Overdue (store m j s) id t
unfolding store
Overdue-store m id j t s (x, e, late) h = elim (Bool-cases (eqb j id)) [
  | inl p ↦ (s, ground (arith, get-insert m.sessions j s id), h ((eqb_iff j id).0 p))
  | inr p ↦ (x, ground (arith, get-insert m.sessions j s id), late)
]

step-Overdue :
    (m : SessionManager) (clock now t id : ℕ) (c : Call)
    → IsValid m clock
    → t ≤ now
    → m.next_id + 1 < u64_mod
    → Overdue m id t
    → Overdue (step m now c) id t
unfolding step create store
step-Overdue m clock now t id (creates p i lease) v le room (x, e, late) = (
  x,
  ground (
    arith,
    get-insert m.sessions (next_u64 m.next_id) (create m p i lease now).1 id,
    v.bounded id x e,
  ),
  late,
)
step-Overdue m clock now t id (heartbeats j) v le room (x, e, late) =
    heartbeat_cases (λ m'. Overdue m' id t) m j now (x, e, late)
      (λ s e' l.
        Overdue-store m id j t (expire s) (x, e, late) (unfold expire in λ p. ground arith))
      (λ s e' l.
        Overdue-store m id j t (renew s now) (x, e, late) (unfold renew in λ p. ground arith))
step-Overdue m clock now t id (resumes j i) v le room (x, e, late) =
    resume_cases (λ m'. Overdue m' id t) m j i now (x, e, late)
      (λ s e' l.
        Overdue-store m id j t (expire s) (x, e, late) (unfold expire in λ p. ground arith))
      (λ s e' _ l.
        Overdue-store m id j t (renew s now) (x, e, late) (unfold renew in λ p. ground arith))

run-Overdue :
    (m : SessionManager) (clock t id : ℕ) (calls : List (ℕ × Call))
    → IsValid m clock
    → Ordered clock calls
    → m.next_id + length calls < u64_mod
    → t ≤ clock
    → Overdue m id t
    → Overdue (run m calls) id t
unfolding run
run-Overdue m clock t id [] v o room le d = d
run-Overdue m clock t id ((now, c) ∷ calls) v o room le d =
    run-Overdue (step m now c) now t id calls (step-IsValid m clock now c v o.0 (omega arith)) o.1
      (omega (arith, next_id-step m now c)) (omega arith)
      (step-Overdue m clock now t id c v (omega arith) (omega arith) d)

Overdue-of_dead :
    (m : SessionManager) (id clock : ℕ)
    → IsValid m clock
    → is_live m id clock ≡ (true, false)
    → Overdue m id clock
unfolding validate_active
Overdue-of_dead m id clock v dead = elim (Option-cases (Map.get m.sessions id)) [
  | inl e ↦ absurd (ground arith)
  | inr (s, e) ↦ (s, e, ground (arith, v.overdue id s e))
]

dead_of_Overdue :
    (m : SessionManager) (id t later : ℕ)
    → Overdue m id t
    → t ≤ later
    → is_live m id later ≡ (true, false)
unfolding validate_active
dead_of_Overdue m id t later (s, e, late) le = ground arith

-- A session that ValidateActive has once found and refused is found and refused at every later
-- time, whatever calls come in between: neither Heartbeat nor Resume brings it back.
pub expired_forever :
    (m : SessionManager) (clock id later : ℕ) (calls : List (ℕ × Call))
    → IsValid m clock
    → Ordered clock calls
    → m.next_id + length calls < u64_mod
    → is_live m id clock ≡ (true, false)
    → clock ≤ later
    → is_live (run m calls) id later ≡ (true, false)
expired_forever m clock id later calls v o room dead le =
    dead_of_Overdue (run m calls) id clock later
      (run-Overdue m clock clock id calls v o room (omega arith)
        (Overdue-of_dead m id clock v dead))
      le
