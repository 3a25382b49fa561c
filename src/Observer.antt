-- ===== src/Observer.antt =====
-- internal/server/lock_observer.go, control_observer.go, fault_log_observer.go and
-- runtime_snapshot.go: the counters of a running server, and the snapshots of its components.
pub mod Counters
pub mod Waits
pub mod Snapshots
