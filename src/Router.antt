-- ===== src/Router.antt =====
-- src/router.rs: the route table. One child for the route type, one for the table, and the proofs.
pub mod Route
pub mod Table
pub mod Address
pub mod Url
pub mod Entry
pub mod Load
pub mod Persist
pub mod Update
pub mod Patterns
pub mod Custom
pub mod Refine
pub mod Keyed
pub mod Canonical
pub mod Toml
pub mod Steps
pub mod Threads
