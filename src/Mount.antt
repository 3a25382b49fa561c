-- ===== src/Mount.antt =====
-- internal/mountcore and internal/platform/windows: a mounted volume on the calls of a client.
pub mod Path
pub mod Shape
pub mod Defs
pub mod Volume
pub mod HandleIds
pub mod Sessions
pub mod OnClient
