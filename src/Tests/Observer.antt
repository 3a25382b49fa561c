-- ===== src/Tests/Observer.antt =====
-- Two calls of `observe` whose operations interleave, calls in turn, and an error in the log.
use net_drive.Prelude.{ℕ, ◌≡◌, ◌≤◌, refl, true, none, some, List, [], ◌∷◌, arith}
use net_drive.Prelude.Text.{codes}
use net_drive.Observer.Counters.{other, FaultLogObserver, observe_suppressed, observe_wait}
use net_drive.Observer.Waits.{interleave, beginning, no_waits, finished}
use net_drive.Observer.Waits.Accuracy.{IsAccurate, interleave-IsAccurate, waits_of}

-- Both have read the maximum 0 before either replaces it; the one that comes second tries again.
abbrev turns : List ℕ
turns = 1 ∷ 1 ∷ 1 ∷ 1 ∷ 0 ∷ 1 ∷ 0 ∷ 1 ∷ 1 ∷ 1 ∷ 1 ∷ 0 ∷ 0 ∷ 0 ∷ 0 ∷ []

abbrev waits : List ℕ
waits = 60_000 ∷ 2_000_000 ∷ []

interleave_test : interleave turns (beginning waits) no_waits ≡ (
  record { wait = 60_000; stage = finished } ∷ record { wait = 2_000_000; stage = finished } ∷ [],
  record {
    acquires = 2;
    wait_over_50us = 2;
    wait_over_1ms = 1;
    total_wait_ns = 2_060_000;
    max_wait_ns = 2_000_000;
  },
)
unfolding interleave beginning
interleave_test = refl

interleave-IsAccurate_example :
    IsAccurate
      (interleave turns (beginning waits) no_waits).0
      (interleave turns (beginning waits) no_waits).1
    × ((interleave turns (beginning waits) no_waits).1.wait_over_1ms
        ≤ (interleave turns (beginning waits) no_waits).1.wait_over_50us)
    × ((interleave turns (beginning waits) no_waits).1.wait_over_50us
        ≤ (interleave turns (beginning waits) no_waits).1.acquires)
    × (waits_of (interleave turns (beginning waits) no_waits).0 ≡ waits)
interleave-IsAccurate_example = interleave-IsAccurate turns waits (omega arith) (omega arith)

-- The calls one after the other.
in_turn_test :
    observe_wait (some 2_000_000) (observe_wait none (observe_wait (some 60_000) no_waits))
    ≡ record {
      acquires = 3;
      wait_over_50us = 2;
      wait_over_1ms = 1;
      total_wait_ns = 2_060_000;
      max_wait_ns = 2_000_000;
    }
unfolding observe_wait
in_turn_test = refl

abbrev quiet : FaultLogObserver
quiet = record {
  suppressed_net_closed = 0;
  suppressed_eof = 0;
  suppressed_unexpected_eof = 0;
  suppressed_broken_pipe = 0;
  suppressed_conn_reset = 0;
  logged = 0;
}

suppressed_test :
    observe_suppressed (other (codes "write: Broken Pipe")) quiet
    ≡ (true, record quiet { suppressed_broken_pipe = 1 })
unfolding observe_suppressed
suppressed_test = refl
