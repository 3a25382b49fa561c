-- ===== src/Dispatch.antt =====
-- internal/server/server.go: the channels of files and events, on the backend and the journal.
pub mod Defs
pub mod Errors
pub mod Decode
pub mod Metadata
pub mod Bulk
pub mod Events
pub mod Recovery
pub mod Serve
pub mod Reply
pub mod Connection
pub mod Fits
pub mod Silent
pub mod Logs
pub mod History
pub mod Delivery
