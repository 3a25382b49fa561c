-- ===== src/Client.antt =====
-- internal/clientcore: what the client remembers of the server, and what it recovers with.
pub mod Tracking
pub mod Recovering
pub mod Seen
pub mod Wire
pub mod Loop
pub mod Calls
