-- ===== src/Observer/Waits/Maximum.antt =====
-- internal/server/lock_observer.go: the maximum of lock waits, which calls of `observe` raise by
-- CompareAndSwap.
use net_drive.Prelude.{ℕ, zero, suc, ◌≤◌, ◌<◌, ◌≡◌, refl, List, [], ◌∷◌, arith, max, ap}
use net_drive.Observer.Counters.{LockWaitCounters}
use net_drive.Observer.Waits.{Stage, very_late, loaded, finished, Observation, advance, advance_at}

-- The longest of the waits.
abbrev pub longest : List Observation → ℕ
longest [] = 0
longest (o ∷ os) = max o.wait (longest os)

-- A call that is over has been counted in the maximum, and one about to raise it has cause to.
abbrev pub HasRaised : ℕ → Stage → ℕ → Type 0
HasRaised top finished ns = ns ≤ top
HasRaised top (loaded old) ns = old < ns
HasRaised top _ ns = Unit

abbrev pub AllRaised : ℕ → List Observation → Type 0
AllRaised top [] = Unit
AllRaised top (o ∷ os) = HasRaised top o.stage o.wait × AllRaised top os

pub advance_at-longest :
    (i : ℕ) (os : List Observation) (c : LockWaitCounters)
    → longest (advance_at i os c).0 ≡ longest os
unfolding advance_at
advance_at-longest i [] c = refl
advance_at-longest zero (o ∷ os) c = refl
advance_at-longest (suc i) (o ∷ os) c = ap (max o.wait) (advance_at-longest i os c)

HasRaised-le : (s : Stage) (ns top top' : ℕ) → top ≤ top' → HasRaised top s ns → HasRaised top' s ns
HasRaised-le finished ns top top' le h = omega arith
HasRaised-le _ ns top top' le h = h

AllRaised-le :
    (os : List Observation) (top top' : ℕ) → top ≤ top' → AllRaised top os → AllRaised top' os
AllRaised-le [] top top' le h = tt
AllRaised-le (o ∷ os) top top' le h =
    (HasRaised-le o.stage o.wait top top' le h.0, AllRaised-le os top top' le h.1)

advance-max :
    (s : Stage) (ns : ℕ) (c : LockWaitCounters)
    → HasRaised c.max_wait_ns s ns
    → (c.max_wait_ns ≤ (advance s ns c).1.max_wait_ns)
      × ((advance s ns c).1.max_wait_ns ≤ max ns c.max_wait_ns)
      × HasRaised (advance s ns c).1.max_wait_ns (advance s ns c).0 ns
unfolding advance
advance-max very_late ns c h = ground arith
advance-max (loaded old) ns c h = ground arith
advance-max finished ns c h = (omega arith, omega arith, h)
advance-max _ ns c h = (omega arith, omega arith, tt)

-- The maximum never falls, stays below the longest wait, and keeps what has been counted in it.
pub advance_at-max :
    (i : ℕ) (os : List Observation) (c : LockWaitCounters)
    → AllRaised c.max_wait_ns os
    → (c.max_wait_ns ≤ (advance_at i os c).1.max_wait_ns)
      × ((advance_at i os c).1.max_wait_ns ≤ max (longest os) c.max_wait_ns)
      × AllRaised (advance_at i os c).1.max_wait_ns (advance_at i os c).0
unfolding advance_at
advance_at-max i [] c h = (omega arith, omega arith, tt)
advance_at-max zero (o ∷ os) c h =
    let (up, below, mine) = advance-max o.stage o.wait c h.0 in
    (up, omega arith, (mine, AllRaised-le os _ _ up h.1))
advance_at-max (suc i) (o ∷ os) c h =
    let (up, below, theirs) = advance_at-max i os c h.1 in
    (up, omega arith, (HasRaised-le o.stage o.wait _ _ up h.0, theirs))
