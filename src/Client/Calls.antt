-- ===== src/Client/Calls.antt =====
-- internal/clientcore: the calls of a client, each one request and what the client then remembers.
-- The clock and the coding of payloads are parameters.
pub mod Defs
pub mod Session
pub mod Files
pub mod Names
pub mod Watches
pub mod Rules
pub mod Failures
