-- ===== src/Protocol.antt =====
-- internal/protocol/types.go: the constants and the messages of the protocol.
mod Defs
mod Nodes
mod Events
mod Errors
pub mod Channel
pub mod Opcode
pub mod Flag
pub use Defs.*
pub use Nodes.*
pub use Events.*
pub use Errors.*
