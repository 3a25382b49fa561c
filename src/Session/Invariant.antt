-- ===== src/Session/Invariant.antt =====
-- The invariant of the sessions of internal/server/session_manager.go.
use net_drive.Prelude.{
  ℕ, ◌+◌, ◌≡◌, refl, some, ltb, arith, text_beq_iff, ◌==◌, ◌<◌, ◌≤◌, nat_eq, text_eq, Option-cases,
  Bool-cases, inl, inr, ltb→lt, ◌⊎◌, ◌||◌, not,
}
use net_drive.Prelude.Map
use net_drive.Prelude.Map.{map_laws, get-insert}
use net_drive.Prelude.Text.{Text}
use net_drive.Prelude.Words.{next_u64, u64_mod}
use net_drive.Session.{
  SessionManager, Session, create, heartbeat, resume, expired, expire, renew, store, Call, creates,
  heartbeats, resumes, step, new_session_manager, is_active,
}

-- What holds of every manager at `clock`, the time of its last call: the ids in use are not above
-- the counter, a session is stored under its id, and `expired` is recorded only of sessions whose
-- time has run out.
pub record IsValid (m : SessionManager) (clock : ℕ) : Type 0 where
  pub bounded : (id : ℕ) (s : Session) → Map.get m.sessions id ≡ some s → id ≤ m.next_id
  pub keyed : (id : ℕ) (s : Session) → Map.get m.sessions id ≡ some s → s.id ≡ id
  pub overdue :
      (id : ℕ) (s : Session)
      → Map.get m.sessions id ≡ some s
      → s.state ≡ expired
      → s.expires_at < clock

pub IsValid-new : (clock : ℕ) → IsValid new_session_manager clock
unfolding new_session_manager
IsValid-new clock = record {
  bounded = λ id s e. ground (arith, Map.get-empty {V = Session} id);
  keyed = λ id s e. ground (arith, Map.get-empty {V = Session} id);
  overdue = λ id s e. ground (arith, Map.get-empty {V = Session} id);
}

-- A session stored back under its own id keeps the invariant.
IsValid-store :
    (m : SessionManager) (id clock now : ℕ) (s t : Session)
    → IsValid m clock
    → clock ≤ now
    → Map.get m.sessions id ≡ some s
    → t.id ≡ s.id
    → (t.state ≡ expired → t.expires_at < now)
    → IsValid (store m id t) now
unfolding store
IsValid-store m id clock now s t v le e same overdue = record {
  bounded = λ j x. ground (arith, get-insert m.sessions id t j, v.bounded j x, v.bounded id s);
  keyed = λ j x. ground (arith, get-insert m.sessions id t j, v.keyed j x, v.keyed id s);
  overdue = λ j x. ground (arith, get-insert m.sessions id t j, v.overdue j x);
}

pub IsValid-later :
    (m : SessionManager) (clock now : ℕ) → IsValid m clock → clock ≤ now → IsValid m now
IsValid-later m clock now v le = record {
  bounded = v.bounded;
  keyed = v.keyed;
  overdue = λ j x. ground (arith, v.overdue j x);
}

pub heartbeat_cases {ℓ} :
    (P : SessionManager → Type ℓ) (m : SessionManager) (id now : ℕ)
    → P m
    → ((s : Session)
        → Map.get m.sessions id ≡ some s
        → s.expires_at < now
        → P (store m id (expire s)))
    → ((s : Session)
        → Map.get m.sessions id ≡ some s
        → now ≤ s.expires_at
        → P (store m id (renew s now)))
    → P (heartbeat m id now).0
unfolding heartbeat
heartbeat_cases P m id now same dead live = elim (Option-cases (Map.get m.sessions id)) [
  | inl e ↦ rw (e, heartbeat) same
  | inr (s, e) ↦ elim (Bool-cases (ltb s.expires_at now)) [
    | inl t ↦ rw (e, heartbeat, t) (dead s e (ltb→lt s.expires_at now t))
    | inr f ↦ rw (e, heartbeat, f) (live s e (ground arith))
  ]
]

pub resume_cases {ℓ} :
    (P : SessionManager → Type ℓ) (m : SessionManager) (id : ℕ) (instance_id : Text) (now : ℕ)
    → P m
    → ((s : Session)
        → Map.get m.sessions id ≡ some s
        → (s.expires_at < now) ⊎ (s.state ≡ expired)
        → P (store m id (expire s)))
    → ((s : Session)
        → Map.get m.sessions id ≡ some s
        → s.client_instance_id ≡ instance_id
        → now ≤ s.expires_at
        → P (store m id (renew s now)))
    → P (resume m id instance_id now).0
unfolding resume
resume_cases P m id instance_id now same dead live = elim (Option-cases (Map.get m.sessions id)) [
  | inl e ↦ rw (e, resume) same
  | inr (s, e) ↦ elim (Bool-cases (s.client_instance_id == instance_id)) [
    | inr f ↦ rw (e, resume, f) same
    | inl t ↦ elim (Bool-cases (ltb s.expires_at now || not (is_active s.state))) [
      | inl late ↦ rw (e, resume, t, late) (dead s e (unfold is_active in ground arith))
      | inr live' ↦
          rw (e, resume, t, live')
            (live s e ((text_beq_iff s.client_instance_id instance_id).0 t) (ground arith))
    ]
  ]
]

-- Every call keeps the invariant, as long as the id counter does not wrap.
pub step-IsValid :
    (m : SessionManager) (clock now : ℕ) (c : Call)
    → IsValid m clock
    → clock ≤ now
    → m.next_id + 1 < u64_mod
    → IsValid (step m now c) now
unfolding step create heartbeat resume
step-IsValid m clock now (creates p i lease) v le room = record {
  bounded = λ j x. ground (
    arith,
    get-insert m.sessions (next_u64 m.next_id) (create m p i lease now).1 j,
    v.bounded j x,
  );
  keyed = λ j x.
      ground (
        arith,
        get-insert m.sessions (next_u64 m.next_id) (create m p i lease now).1 j,
        v.keyed j x,
      );
  overdue = λ j x. ground (
    arith,
    get-insert m.sessions (next_u64 m.next_id) (create m p i lease now).1 j,
    v.overdue j x,
  );
}
step-IsValid m clock now (heartbeats id) v le room =
    heartbeat_cases (λ m'. IsValid m' now) m id now (IsValid-later m clock now v le)
      (λ s e late.
        IsValid-store m id clock now s (expire s) v le e (unfold expire in refl)
          (unfold expire in λ _. late))
      (λ s e _.
        IsValid-store m id clock now s (renew s now) v le e (unfold renew in refl)
          (unfold renew in cc))
step-IsValid m clock now (resumes id i) v le room =
    resume_cases (λ m'. IsValid m' now) m id i now (IsValid-later m clock now v le)
      (λ s e late.
        IsValid-store m id clock now s (expire s) v le e (unfold expire in refl)
          (unfold expire in λ _. ground (arith, v.overdue id s)))
      (λ s e _ _.
        IsValid-store m id clock now s (renew s now) v le e (unfold renew in refl)
          (unfold renew in λ q. cc))
