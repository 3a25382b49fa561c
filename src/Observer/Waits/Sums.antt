-- ===== src/Observer/Waits/Sums.antt =====
-- internal/server/lock_observer.go: each counter of lock waits is the sum of what the calls of
-- `observe` have added to it so far.
use net_drive.Prelude.{
  ℕ, zero, suc, ◌+◌, ◌≤◌, ◌<◌, ◌≡◌, refl, List, [], ◌∷◌, leb, if◌then◌else◌, arith,
}
use net_drive.Prelude.Words.{u64_mod}
use net_drive.Observer.Counters.{LockWaitCounters, us_50, ms_1}
use net_drive.Observer.Waits.{
  Stage, start, acquired, totalled, late, Observation, advance, advance_at,
}

-- What a call has added so far to each counter.
abbrev pub added_acquires : Stage → ℕ → ℕ
added_acquires start ns = 0
added_acquires _ ns = 1

abbrev pub added_total : Stage → ℕ → ℕ
added_total start ns = 0
added_total acquired ns = 0
added_total _ ns = ns

abbrev pub added_late : Stage → ℕ → ℕ
added_late start ns = 0
added_late acquired ns = 0
added_late totalled ns = 0
added_late _ ns = if leb us_50 ns then 1 else 0

abbrev pub added_very_late : Stage → ℕ → ℕ
added_very_late start ns = 0
added_very_late acquired ns = 0
added_very_late totalled ns = 0
added_very_late late ns = 0
added_very_late _ ns = if leb ms_1 ns then 1 else 0

abbrev pub sum_of : (Stage → ℕ → ℕ) → List Observation → ℕ
sum_of f [] = 0
sum_of f (o ∷ os) = f o.stage o.wait + sum_of f os

-- One counter: what a call costs it at most, and what one step of a call does to it.
module _ (f : Stage → ℕ → ℕ) (get : LockWaitCounters → ℕ) (cost : ℕ → ℕ)
    (within : (s : Stage) (ns : ℕ) → f s ns ≤ cost ns)
    (one : (s : Stage) (ns : ℕ) (c : LockWaitCounters) (rest : ℕ)
      → get c ≡ rest + f s ns
      → rest + cost ns < u64_mod
      → get (advance s ns c).1 ≡ rest + f (advance s ns c).0 ns) where
  pub sum_of-le : (os : List Observation) → sum_of f os ≤ sum_of (λ s ns. cost ns) os
  sum_of-le [] = omega arith
  sum_of-le (o ∷ os) = omega (arith, within o.stage o.wait, sum_of-le os)

  pub advance_at-sum_of :
      (i : ℕ) (os : List Observation) (c : LockWaitCounters) (base : ℕ)
      → get c ≡ base + sum_of f os
      → base + sum_of (λ s ns. cost ns) os < u64_mod
      → get (advance_at i os c).1 ≡ base + sum_of f (advance_at i os c).0
  unfolding advance_at
  advance_at-sum_of i [] c base h room = h
  advance_at-sum_of zero (o ∷ os) c base h room =
      omega (
        arith,
        one o.stage o.wait c (base + sum_of f os) (omega arith) (omega (arith, sum_of-le os)),
      )
  advance_at-sum_of (suc i) (o ∷ os) c base h room = omega (
    arith,
    within o.stage o.wait,
    advance_at-sum_of i os c (base + f o.stage o.wait) (omega arith)
        (omega (arith, within o.stage o.wait)),
  )

-- The waits stay as they are.
pub advance_at-cost :
    (cost : ℕ → ℕ) (i : ℕ) (os : List Observation) (c : LockWaitCounters)
    → sum_of (λ s ns. cost ns) (advance_at i os c).0 ≡ sum_of (λ s ns. cost ns) os
unfolding advance_at
advance_at-cost cost i [] c = refl
advance_at-cost cost zero (o ∷ os) c = refl
advance_at-cost cost (suc i) (o ∷ os) c = omega (arith, advance_at-cost cost i os c)

-- One step of a call.
pub advance-acquires :
    (s : Stage) (ns : ℕ) (c : LockWaitCounters) (rest : ℕ)
    → c.acquires ≡ rest + added_acquires s ns
    → rest + 1 < u64_mod
    → (advance s ns c).1.acquires ≡ rest + added_acquires (advance s ns c).0 ns
unfolding advance
advance-acquires start ns c rest h room = omega arith
advance-acquires _ ns c rest h room = ground arith

pub advance-total :
    (s : Stage) (ns : ℕ) (c : LockWaitCounters) (rest : ℕ)
    → c.total_wait_ns ≡ rest + added_total s ns
    → rest + ns < u64_mod
    → (advance s ns c).1.total_wait_ns ≡ rest + added_total (advance s ns c).0 ns
unfolding advance
advance-total acquired ns c rest h room = omega arith
advance-total _ ns c rest h room = ground arith

pub advance-late :
    (s : Stage) (ns : ℕ) (c : LockWaitCounters) (rest : ℕ)
    → c.wait_over_50us ≡ rest + added_late s ns
    → rest + 1 < u64_mod
    → (advance s ns c).1.wait_over_50us ≡ rest + added_late (advance s ns c).0 ns
unfolding advance
advance-late totalled ns c rest h room = ground arith
advance-late _ ns c rest h room = ground arith

pub advance-very_late :
    (s : Stage) (ns : ℕ) (c : LockWaitCounters) (rest : ℕ)
    → c.wait_over_1ms ≡ rest + added_very_late s ns
    → rest + 1 < u64_mod
    → (advance s ns c).1.wait_over_1ms ≡ rest + added_very_late (advance s ns c).0 ns
unfolding advance
advance-very_late late ns c rest h room = ground arith
advance-very_late _ ns c rest h room = ground arith

pub added_acquires-le : (s : Stage) (ns : ℕ) → added_acquires s ns ≤ 1
added_acquires-le start ns = omega arith
added_acquires-le _ ns = omega arith

pub added_total-le : (s : Stage) (ns : ℕ) → added_total s ns ≤ ns
added_total-le start ns = omega arith
added_total-le _ ns = omega arith

pub added_late-le : (s : Stage) (ns : ℕ) → added_late s ns ≤ added_acquires s ns
added_late-le start ns = omega arith
added_late-le _ ns = ground arith

pub added_very_late-le : (s : Stage) (ns : ℕ) → added_very_late s ns ≤ added_late s ns
added_very_late-le start ns = omega arith
added_very_late-le _ ns = ground arith
