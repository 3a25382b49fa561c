-- ===== src/Runtime.antt =====
-- internal/winclientruntime/runtime.go: the phases of a mount in the desktop application. Start
-- builds a session outside its lock, and each session runs in a goroutine of its own, so calls are
-- cut into the steps between which others can come. `start_event` is a
-- call of Start; the results of Build and Run are parameters.
pub mod Defs
pub mod Calls
pub mod Phases
