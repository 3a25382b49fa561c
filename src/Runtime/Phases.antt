-- ===== src/Runtime/Phases.antt =====
-- The phases of internal/winclientruntime/runtime.go, and what they tell.
use net_drive.Prelude.{
  none-ne-some, ℕ, suc, ◌≡◌, refl, Bool, true, false, Option, none, some, List, [], ◌∷◌, arith, All,
  eqb, ◌||◌, ◌≢◌, ap, sym, ◌∙◌, Bool-cases, inl, inr, if◌then◌else◌,
}
use net_drive.Prelude.Text.{Text}
use net_drive.Winclient.{Config}
use net_drive.Runtime.Defs.{Phase, connecting, mounted, stopping, SessionInfo, Runtime}
use net_drive.Runtime.Calls.{
  new_runtime, is_busy, begin_start, connect, transition_to_error, build_failed, build_done, stop,
  session_ended, Event, starts, fails_to_build, builds, stops, ends, step, run_events,
}

-- How many builds and sessions there are in a phase, and whether a cancel function is stored.
unfoldable pub builds_in : Phase → ℕ
builds_in connecting = 1
builds_in _ = 0

unfoldable pub sessions_in : Phase → ℕ
sessions_in mounted = 1
sessions_in stopping = 1
sessions_in _ = 0

unfoldable pub cancels_in : Phase → Bool
cancels_in mounted = true
cancels_in stopping = true
cancels_in _ = false

-- The phase tells what is under way.
pub record IsValid (r : Runtime) : Type 0 where
  pub building : r.building ≡ builds_in r.state.phase
  pub running : r.running ≡ sessions_in r.state.phase
  pub cancel : r.cancel ≡ cancels_in r.state.phase

-- A start with a configuration that is valid, or anything else.
abbrev pub HasValidConfig : Event → Type 0
HasValidConfig (starts profile config error now) = error ≡ none
HasValidConfig _ = Unit

-- What the counts tell of the phase.
not_busy :
    (p : Phase)
    → (cancels_in p || is_busy p) ≡ false
    → (builds_in p ≡ 0) × (sessions_in p ≡ 0) × (cancels_in p ≡ false)
unfolding builds_in sessions_in cancels_in is_busy
not_busy p h = ground (arith, h)

built :
    (p : Phase) → builds_in p ≢ 0 → (builds_in p ≡ 1) × (sessions_in p ≡ 0) × (cancels_in p ≡ false)
unfolding builds_in sessions_in cancels_in
built p h = ground (arith, h)

cancelled : (p : Phase) → cancels_in p ≡ true → (builds_in p ≡ 0) × (sessions_in p ≡ 1)
unfolding builds_in sessions_in cancels_in
cancelled p h = ground (arith, h)

run_on : (p : Phase) → sessions_in p ≢ 0 → (builds_in p ≡ 0) × (sessions_in p ≡ 1)
unfolding builds_in sessions_in
run_on p h = ground (arith, h)

connect-IsValid :
    (r : Runtime) (profile : Text) (config : Config) (now : ℕ)
    → IsValid r
    → IsValid (connect r profile config now)
unfolding connect builds_in sessions_in cancels_in
connect-IsValid r profile config now v = elim (Bool-cases (r.cancel || is_busy r.state.phase)) [
  | inl busy ↦ rw busy v
  | inr free ↦ rw free (
      let p = r.state.phase in
      let still = not_busy p (ap (λ c. c || is_busy p) (sym v.cancel) ∙ free) in
      record {
        building = ap suc (v.building ∙ still.0);
        running = v.running ∙ still.1;
        cancel = v.cancel ∙ still.2;
      })
]

build_failed-IsValid :
    (r : Runtime) (profile : Text) (config : Config) (error : Text) (now : ℕ)
    → IsValid r
    → r.building ≢ 0
    → IsValid (build_failed r profile config error now)
unfolding build_failed transition_to_error builds_in sessions_in cancels_in
build_failed-IsValid r profile config error now v some_build =
    let was = built r.state.phase (λ e. some_build (v.building ∙ e)) in
    record {
      building = omega (arith, v.building, was.0);
      running = v.running ∙ was.1;
      cancel = v.cancel ∙ was.2;
    }

build_done-IsValid :
    (r : Runtime) (profile : Text) (info : SessionInfo) (now : ℕ)
    → IsValid r
    → r.building ≢ 0
    → IsValid (build_done r profile info now)
unfolding build_done builds_in sessions_in cancels_in
build_done-IsValid r profile info now v some_build =
    let was = built r.state.phase (λ e. some_build (v.building ∙ e)) in
    record {
      building = omega (arith, v.building, was.0);
      running = omega (arith, v.running, was.1);
      cancel = refl;
    }

stop-IsValid : (r : Runtime) (now : ℕ) → IsValid r → IsValid (stop r now)
unfolding stop builds_in sessions_in cancels_in
stop-IsValid r now v = elim (Bool-cases r.cancel) [
  | inl e ↦ rw e (
      let was = cancelled r.state.phase (sym v.cancel ∙ e) in
      record { building = v.building ∙ was.0; running = v.running ∙ was.1; cancel = refl })
  | inr e ↦ rw e (record { building = v.building; running = v.running; cancel = sym e ∙ v.cancel })
]

session_ended-IsValid :
    (r : Runtime) (error : Option Text) (now : ℕ)
    → IsValid r
    → r.running ≢ 0
    → IsValid (session_ended r error now)
unfolding session_ended builds_in sessions_in cancels_in
session_ended-IsValid r none now v some_run =
    let was = run_on r.state.phase (λ e. some_run (v.running ∙ e)) in
    record {
      building = v.building ∙ was.0;
      running = omega (arith, v.running, was.1);
      cancel = refl;
    }
session_ended-IsValid r (some error) now v some_run =
    let was = run_on r.state.phase (λ e. some_run (v.running ∙ e)) in
    record {
      building = v.building ∙ was.0;
      running = omega (arith, v.running, was.1);
      cancel = refl;
    }

-- A step that is taken only if something is under way.
guarded-IsValid :
    (r r' : Runtime) (n : ℕ)
    → IsValid r
    → (n ≢ 0 → IsValid r')
    → IsValid (if eqb n 0 then r else r')
guarded-IsValid r r' n v h = elim (Bool-cases (eqb n 0)) [
  | inl e ↦ rw e v
  | inr e ↦ rw e (h (ground (arith, e)))
]

step-IsValid : (r : Runtime) (e : Event) → HasValidConfig e → IsValid r → IsValid (step r e)
unfolding step begin_start
step-IsValid r (starts profile config none now) h v = connect-IsValid r profile config now v
step-IsValid r (starts profile config (some error) now) h v = absurd (none-ne-some (sym h))
step-IsValid r (fails_to_build profile config error now) h v =
    guarded-IsValid r _ r.building v (build_failed-IsValid r profile config error now v)
step-IsValid r (builds profile info now) h v =
    guarded-IsValid r _ r.building v (build_done-IsValid r profile info now v)
step-IsValid r (stops now) h v = stop-IsValid r now v
step-IsValid r (ends error now) h v =
    guarded-IsValid r _ r.running v (session_ended-IsValid r error now v)

-- However the calls of Start and Stop and the ends of builds and sessions interleave, if every
-- configuration given to Start is valid, then at most one build or session is under way, the phase
-- tells which, and a cancel function is stored exactly while a session runs.
pub run_events-IsValid :
    (r : Runtime) (events : List Event)
    → All HasValidConfig events
    → IsValid r
    → IsValid (run_events r events)
unfolding run_events
run_events-IsValid r [] h v = v
run_events-IsValid r (e ∷ events) h v =
    run_events-IsValid (step r e) events h.1 (step-IsValid r e h.0 v)

pub new_runtime-IsValid : (now : ℕ) → IsValid (new_runtime now)
unfolding new_runtime builds_in sessions_in cancels_in
new_runtime-IsValid now = record { building = refl; running = refl; cancel = refl }
