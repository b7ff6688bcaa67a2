-- ===== src/Tests.antt =====
-- Concrete sessions on a concrete router: tests, and instances of the theorems.
pub mod World
pub mod Sessions
pub mod Instances
pub mod Clients
pub mod Memory
pub mod Verbs
pub mod Startup
pub mod Isolation
pub mod Overlap
pub mod Polling
pub mod Listening
