-- ===== src/Observer/Waits.antt =====
-- internal/server/lock_observer.go: `observe` of lockWaitCounters by many goroutines at once, each
-- cut at its atomic operations.
pub mod Sums
pub mod Maximum
pub mod Accuracy
use net_drive.Prelude.{ℕ, zero, suc, List, [], ◌∷◌, leb, eqb, if◌then◌else◌}
use net_drive.Prelude.Words.{next_u64}
use net_drive.Observer.Counters.{LockWaitCounters, us_50, ms_1, add_if, add_u64}

-- How far a call of `observe` has come. `loaded` holds what it has read of maxWaitNS.
pub data Stage : Type 0 where
  start acquired totalled late very_late : Stage
  loaded : ℕ → Stage
  finished : Stage

pub record Observation : Type 0 where
  pub wait : ℕ
  pub stage : Stage

-- The next atomic operation of a call, from its stage.
unfoldable pub advance : Stage → ℕ → LockWaitCounters → Stage × LockWaitCounters
advance start ns c = (acquired, record c { acquires = next_u64 c.acquires })
advance acquired ns c = (totalled, record c { total_wait_ns = add_u64 c.total_wait_ns ns })
advance totalled ns c = (late, record c { wait_over_50us = add_if (leb us_50 ns) c.wait_over_50us })
advance late ns c = (very_late, record c { wait_over_1ms = add_if (leb ms_1 ns) c.wait_over_1ms })
advance very_late ns c = (if leb ns c.max_wait_ns then finished else loaded c.max_wait_ns, c)
advance (loaded old) ns c =
    if eqb c.max_wait_ns old then (finished, record c { max_wait_ns = ns }) else (very_late, c)
advance finished ns c = (finished, c)

-- The call at the index makes its next atomic operation.
unfoldable pub advance_at :
    ℕ → List Observation → LockWaitCounters → List Observation × LockWaitCounters
unfolding advance
advance_at i [] c = ([], c)
advance_at zero (o ∷ os) c =
    let (stage, c') = advance o.stage o.wait c in (record o { stage = stage } ∷ os, c')
advance_at (suc i) (o ∷ os) c = let (os', c') = advance_at i os c in (o ∷ os', c')

-- Any interleaving, as the list of the calls that make an operation, the last one first.
unfoldable pub interleave :
    List ℕ → List Observation → LockWaitCounters → List Observation × LockWaitCounters
unfolding advance_at
interleave [] os c = (os, c)
interleave (i ∷ turns) os c = let (os', c') = interleave turns os c in advance_at i os' c'

unfoldable pub beginning : List ℕ → List Observation
beginning [] = []
beginning (ns ∷ waits) = record { wait = ns; stage = start } ∷ beginning waits

abbrev pub no_waits : LockWaitCounters
no_waits = record {
  acquires = 0;
  wait_over_50us = 0;
  wait_over_1ms = 0;
  total_wait_ns = 0;
  max_wait_ns = 0;
}
