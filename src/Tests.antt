-- ===== src/Tests.antt =====
-- Runs of the definitions at fixed inputs, and the theorems at inputs that meet their hypotheses.
mod Text
mod Transport
mod Session
mod Journal
mod Directory
mod Control
mod Backend
pub mod Disk
pub mod Handles
pub mod Dispatch
mod Calls
mod Client
pub mod Mount
mod Winclient
mod Store
mod Winfsp
mod Native
mod Materialize
mod Runtime
mod Observer
