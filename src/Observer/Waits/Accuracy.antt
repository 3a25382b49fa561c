-- ===== src/Observer/Waits/Accuracy.antt =====
-- internal/server/lock_observer.go: what the counters of lock waits say while calls of `observe`
-- are under way.
use net_drive.Prelude.{
  ℕ, zero, suc, ◌+◌, ◌≤◌, ◌<◌, ◌≡◌, refl, ◌∙◌, ap, List, [], ◌∷◌, arith, length,
}
use net_drive.Prelude.Words.{u64_mod}
use net_drive.Observer.Counters.{LockWaitCounters}
use net_drive.Observer.Waits.{Stage, Observation, advance_at, interleave, beginning, no_waits}
use net_drive.Observer.Waits.Sums.{
  added_acquires, added_total, added_late, added_very_late, sum_of, advance_at-sum_of,
  advance_at-cost, advance-acquires, advance-total, advance-late, advance-very_late,
  added_acquires-le, added_total-le, added_late-le, added_very_late-le,
}
use net_drive.Observer.Waits.Maximum.{longest, AllRaised, advance_at-longest, advance_at-max}

-- The counters say exactly what the calls have added so far.
pub record IsAccurate (os : List Observation) (c : LockWaitCounters) : Type 0 where
  pub acquires_sum : c.acquires ≡ sum_of added_acquires os
  pub total_sum : c.total_wait_ns ≡ sum_of added_total os
  pub late_sum : c.wait_over_50us ≡ sum_of added_late os
  pub very_late_sum : c.wait_over_1ms ≡ sum_of added_very_late os
  pub raised : AllRaised c.max_wait_ns os
  pub not_above : c.max_wait_ns ≤ longest os

abbrev calls : List Observation → ℕ
calls os = sum_of (λ s ns. 1) os

abbrev all_waits : List Observation → ℕ
all_waits os = sum_of (λ s ns. ns) os

late-le_one : (s : Stage) (ns : ℕ) → added_late s ns ≤ 1
late-le_one s ns = omega (arith, added_late-le s ns, added_acquires-le s ns)

very_late-le_one : (s : Stage) (ns : ℕ) → added_very_late s ns ≤ 1
very_late-le_one s ns = omega (arith, added_very_late-le s ns, late-le_one s ns)

advance_at-IsAccurate :
    (i : ℕ) (os : List Observation) (c : LockWaitCounters)
    → IsAccurate os c
    → calls os < u64_mod
    → all_waits os < u64_mod
    → IsAccurate (advance_at i os c).0 (advance_at i os c).1
advance_at-IsAccurate i os c v few short =
    let (up, below, theirs) = advance_at-max i os c v.raised in
    record {
      acquires_sum = omega (
        arith,
        advance_at-sum_of added_acquires (λ c. c.acquires) (λ ns. 1) added_acquires-le
            advance-acquires i os c 0 (omega arith) (omega arith),
      );
      total_sum = omega (
        arith,
        advance_at-sum_of added_total (λ c. c.total_wait_ns) (λ ns. ns) added_total-le advance-total
            i os c 0 (omega arith) (omega arith),
      );
      late_sum = omega (
        arith,
        advance_at-sum_of added_late (λ c. c.wait_over_50us) (λ ns. 1) late-le_one advance-late i os
            c 0 (omega arith) (omega arith),
      );
      very_late_sum = omega (
        arith,
        advance_at-sum_of added_very_late (λ c. c.wait_over_1ms) (λ ns. 1) very_late-le_one
            advance-very_late i os c 0 (omega arith) (omega arith),
      );
      raised = theirs;
      not_above = omega (arith, advance_at-longest i os c, v.not_above);
    }

abbrev pub waits_of : List Observation → List ℕ
waits_of [] = []
waits_of (o ∷ os) = o.wait ∷ waits_of os

abbrev pub sum : List ℕ → ℕ
sum [] = 0
sum (ns ∷ waits) = ns + sum waits

advance_at-waits_of :
    (i : ℕ) (os : List Observation) (c : LockWaitCounters)
    → waits_of (advance_at i os c).0 ≡ waits_of os
unfolding advance_at
advance_at-waits_of i [] c = refl
advance_at-waits_of zero (o ∷ os) c = refl
advance_at-waits_of (suc i) (o ∷ os) c = ap (λ l. o.wait ∷ l) (advance_at-waits_of i os c)

sum_of-le_late : (os : List Observation) → sum_of added_late os ≤ sum_of added_acquires os
sum_of-le_late [] = omega arith
sum_of-le_late (o ∷ os) = omega (arith, added_late-le o.stage o.wait, sum_of-le_late os)

sum_of-le_very_late : (os : List Observation) → sum_of added_very_late os ≤ sum_of added_late os
sum_of-le_very_late [] = omega arith
sum_of-le_very_late (o ∷ os) =
    omega (arith, added_very_late-le o.stage o.wait, sum_of-le_very_late os)

-- At the start nothing has been added.
beginning-IsAccurate :
    (waits : List ℕ)
    → IsAccurate (beginning waits) no_waits
      × (calls (beginning waits) ≡ length waits)
      × (all_waits (beginning waits) ≡ sum waits)
      × (waits_of (beginning waits) ≡ waits)
unfolding beginning
beginning-IsAccurate [] = (omega arith, refl, refl, refl)
beginning-IsAccurate (ns ∷ waits) =
    let (v, few, short, same) = beginning-IsAccurate waits in
    (
      record {
        acquires_sum = omega (arith, v.acquires_sum);
        total_sum = omega (arith, v.total_sum);
        late_sum = omega (arith, v.late_sum);
        very_late_sum = omega (arith, v.very_late_sum);
        raised = (tt, v.raised);
        not_above = omega arith;
      },
      omega (arith, few),
      ap (λ n. ns + n) short,
      ap (λ l. ns ∷ l) same,
    )

interleave-keeps :
    (turns waits : List ℕ)
    → length waits < u64_mod
    → sum waits < u64_mod
    → IsAccurate
        (interleave turns (beginning waits) no_waits).0
        (interleave turns (beginning waits) no_waits).1
      × (calls (interleave turns (beginning waits) no_waits).0 ≡ length waits)
      × (all_waits (interleave turns (beginning waits) no_waits).0 ≡ sum waits)
      × (waits_of (interleave turns (beginning waits) no_waits).0 ≡ waits)
unfolding interleave
interleave-keeps [] waits few short = beginning-IsAccurate waits
interleave-keeps (i ∷ turns) waits few short =
    let (v, n, total, same) = interleave-keeps turns waits few short in
    let (os, c) = interleave turns (beginning waits) no_waits in
    (
      advance_at-IsAccurate i os c v (omega arith) (omega arith),
      advance_at-cost (λ ns. 1) i os c ∙ n,
      advance_at-cost (λ ns. ns) i os c ∙ total,
      advance_at-waits_of i os c ∙ same,
    )

-- Calls of `observe` on one lock, as many as fit a uint64 and with waits whose sum does, however
-- their atomic operations interleave: at every instant each counter is exactly the sum of what the
-- calls have added to it so far, at most as many waits are counted as over 1ms as over 50us, and at
-- most as many of these as acquires. The maximum is at most the longest of the waits, and at least
-- the wait of every call that is over.
pub interleave-IsAccurate :
    (turns waits : List ℕ)
    → length waits < u64_mod
    → sum waits < u64_mod
    → IsAccurate
        (interleave turns (beginning waits) no_waits).0
        (interleave turns (beginning waits) no_waits).1
      × ((interleave turns (beginning waits) no_waits).1.wait_over_1ms
          ≤ (interleave turns (beginning waits) no_waits).1.wait_over_50us)
      × ((interleave turns (beginning waits) no_waits).1.wait_over_50us
          ≤ (interleave turns (beginning waits) no_waits).1.acquires)
      × (waits_of (interleave turns (beginning waits) no_waits).0 ≡ waits)
interleave-IsAccurate turns waits few short =
    let (v, n, total, same) = interleave-keeps turns waits few short in
    let os = (interleave turns (beginning waits) no_waits).0 in
    (
      v,
      omega (arith, v.late_sum, v.very_late_sum, sum_of-le_very_late os),
      omega (arith, v.late_sum, v.acquires_sum, sum_of-le_late os),
      same,
    )
