-- ===== src/Winfsp/Native.antt =====
-- internal/winfsp/dispatcher_native_windows.go: the functions that the driver calls. What they
-- store through a pointer is part of their result; a path comes as the text that the pointer leads
-- to, and a pointer that may be null as an option. Traces, the volume's label and the creation of
-- the driver's own objects are left out.
pub mod Info
pub mod Calls
pub mod Names
pub mod Listing
pub mod Markers
pub mod Enumeration
