-- ===== src/Winfsp.antt =====
-- internal/winfsp: the callbacks of a file system driver on a mount, which is read-only. The driver
-- itself and its traces are left out. adapter.go passes its calls on to the mount.
pub mod Status
pub mod Callbacks
pub mod Denied
pub mod Security
pub mod Native
