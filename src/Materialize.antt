-- ===== src/Materialize.antt =====
-- internal/materialize/materialize.go: a local copy of a mounted path. The counts that Sync returns
-- beside an error are left out. strings.TrimSpace is that of ASCII.
pub mod Defs
pub mod Sync
pub mod Keeps
pub mod Below
