-- ===== src/Observer/Counters.antt =====
-- internal/server/lock_observer.go, control_observer.go and fault_log_observer.go: what one call
-- adds to the counters, where nothing comes in between. A wait is in nanoseconds; one below 0 is
-- `none`, and counts as 0.
use net_drive.Prelude.{
  ℕ, ◌+◌, ◌%◌, Bool, true, false, Option, none, some, leb, if◌then◌else◌, ◌==◌, ◌||◌, text_eq,
  text_beq,
}
use net_drive.Prelude.Words.{u64_mod, next_u64}
use net_drive.Prelude.Text.{Text, codes}
use net_drive.Backend.Profile.{to_lower, contains}

abbrev pub us_50 : ℕ
us_50 = 50_000

abbrev pub ms_1 : ℕ
ms_1 = 1_000_000

abbrev pub ms_10 : ℕ
ms_10 = 10_000_000

unfoldable pub nanoseconds : Option ℕ → ℕ
nanoseconds none = 0
nanoseconds (some ns) = ns

-- `x.Add(ns)` of an atomic.Uint64
abbrev pub add_u64 : ℕ → ℕ → ℕ
add_u64 x ns = (x + ns) % u64_mod

-- `x.Add(1)` where the test holds
abbrev pub add_if : Bool → ℕ → ℕ
add_if true x = next_u64 x
add_if false x = x

-- the loop of CompareAndSwap, with nothing in between
unfoldable pub raise : ℕ → ℕ → ℕ
raise old ns = if leb ns old then old else ns

pub record LockWaitCounters : Type 0 where
  pub acquires : ℕ
  pub wait_over_50us : ℕ
  pub wait_over_1ms : ℕ
  pub total_wait_ns : ℕ
  pub max_wait_ns : ℕ

unfoldable pub observe_wait : Option ℕ → LockWaitCounters → LockWaitCounters
unfolding nanoseconds raise
observe_wait wait c =
    let ns = nanoseconds wait in
    record {
      acquires = next_u64 c.acquires;
      wait_over_50us = add_if (leb us_50 ns) c.wait_over_50us;
      wait_over_1ms = add_if (leb ms_1 ns) c.wait_over_1ms;
      total_wait_ns = add_u64 c.total_wait_ns ns;
      max_wait_ns = raise c.max_wait_ns ns;
    }

pub record DurationCounters : Type 0 where
  pub count : ℕ
  pub over_50us : ℕ
  pub over_1ms : ℕ
  pub over_10ms : ℕ
  pub total_ns : ℕ
  pub max_ns : ℕ

unfoldable pub observe_duration : Option ℕ → DurationCounters → DurationCounters
unfolding nanoseconds raise
observe_duration d c =
    let ns = nanoseconds d in
    record {
      count = next_u64 c.count;
      over_50us = add_if (leb us_50 ns) c.over_50us;
      over_1ms = add_if (leb ms_1 ns) c.over_1ms;
      over_10ms = add_if (leb ms_10 ns) c.over_10ms;
      total_ns = add_u64 c.total_ns ns;
      max_ns = raise c.max_ns ns;
    }

pub record OpLatencyCounters : Type 0 where
  pub count : ℕ
  pub errors : ℕ
  pub total_wait_ns : ℕ
  pub max_wait_ns : ℕ

unfoldable pub observe_op : Option ℕ → Bool → OpLatencyCounters → OpLatencyCounters
unfolding nanoseconds raise
observe_op wait failed c =
    let ns = nanoseconds wait in
    record {
      count = next_u64 c.count;
      errors = add_if failed c.errors;
      total_wait_ns = add_u64 c.total_wait_ns ns;
      max_wait_ns = raise c.max_wait_ns ns;
    }

pub record ControlObserver : Type 0 where
  pub hello : OpLatencyCounters
  pub auth : OpLatencyCounters
  pub create_session : OpLatencyCounters
  pub resume_session : OpLatencyCounters
  pub heartbeat : OpLatencyCounters

-- An operation with another name is not counted.
unfoldable pub observe_control : Text → Option ℕ → Bool → ControlObserver → ControlObserver
unfolding observe_op text_beq
observe_control op wait failed o =
    if op == codes "hello"
    then record o { hello = observe_op wait failed o.hello }
    else if op == codes "auth"
    then record o { auth = observe_op wait failed o.auth }
    else if op == codes "create_session"
    then record o { create_session = observe_op wait failed o.create_session }
    else if op == codes "resume_session"
    then record o { resume_session = observe_op wait failed o.resume_session }
    else if op == codes "heartbeat"
    then record o { heartbeat = observe_op wait failed o.heartbeat }
    else o

-- What errors.Is tells of an error, and its text.
pub data Fault : Type 0 where
  net_closed eof unexpected_eof : Fault
  other : Text → Fault

pub record FaultLogObserver : Type 0 where
  pub suppressed_net_closed : ℕ
  pub suppressed_eof : ℕ
  pub suppressed_unexpected_eof : ℕ
  pub suppressed_broken_pipe : ℕ
  pub suppressed_conn_reset : ℕ
  pub logged : ℕ

-- Whether the error is suppressed, and the counters after it.
unfoldable pub observe_suppressed : Fault → FaultLogObserver → Bool × FaultLogObserver
unfolding to_lower contains
observe_suppressed net_closed o =
    (true, record o { suppressed_net_closed = next_u64 o.suppressed_net_closed })
observe_suppressed eof o = (true, record o { suppressed_eof = next_u64 o.suppressed_eof })
observe_suppressed unexpected_eof o =
    (true, record o { suppressed_unexpected_eof = next_u64 o.suppressed_unexpected_eof })
observe_suppressed (other message) o =
    let lower = to_lower message in
    if contains lower (codes "broken pipe")
    then (true, record o { suppressed_broken_pipe = next_u64 o.suppressed_broken_pipe })
    else if contains lower (codes "connection reset by peer")
        || contains lower (codes "forcibly closed by the remote host")
    then (true, record o { suppressed_conn_reset = next_u64 o.suppressed_conn_reset })
    else (false, o)

unfoldable pub observe_logged : FaultLogObserver → FaultLogObserver
observe_logged o = record o { logged = next_u64 o.logged }

-- observedRWMutex: the counters beside the lock. Lock and RLock are called with the wait, Lock also
-- with the time after it in nanoseconds, and Unlock with the time that has passed since then.
pub record ObservedRwMutex : Type 0 where
  pub read : LockWaitCounters
  pub write : LockWaitCounters
  pub write_hold : DurationCounters
  pub write_held_at : ℕ

unfoldable pub lock : Option ℕ → ℕ → ObservedRwMutex → ObservedRwMutex
unfolding observe_wait
lock wait now m = record m { write = observe_wait wait m.write; write_held_at = now }

unfoldable pub unlock : Option ℕ → ObservedRwMutex → ObservedRwMutex
unfolding observe_duration
unlock held m = record m {
  write_hold = if leb 1 m.write_held_at then observe_duration held m.write_hold else m.write_hold;
  write_held_at = 0;
}

unfoldable pub rlock : Option ℕ → ObservedRwMutex → ObservedRwMutex
unfolding observe_wait
rlock wait m = record m { read = observe_wait wait m.read }
