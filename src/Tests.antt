-- ===== src/Tests.antt =====
-- Runs of the model at concrete inputs.
pub mod Runs
pub mod Stubs
pub mod Access
pub mod Routes
pub mod Webhooks
pub mod Pulls
pub mod Settings
pub mod Certificates
pub mod Bridges
pub mod Starts
pub mod Threads
pub mod Rounds
pub mod Shutdowns
pub mod Toml
pub mod Restarts
