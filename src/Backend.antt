-- ===== src/Backend.antt =====
-- internal/server/metadata_backend.go and editor_profile.go: the files under a root directory.
pub mod Defs
pub mod Profile
pub mod Nodes
pub mod Cache
pub mod Refresh
pub mod Entries
pub mod Files
pub mod Handles
pub mod Keeps
pub mod OpenTables
pub mod Frame
pub mod HandleTable
pub mod Isolation
pub mod FileCalls
pub mod Recovery
pub mod Looks
pub mod Tables
pub mod NodeTable
pub mod Freshness
