-- ===== src/Router.antt =====
-- The ScaleRouter daemon (scalerouter/).
pub mod State
pub mod Global
pub mod Listeners
pub mod Accepting
pub mod Pieces
pub mod Freed
pub mod Race
pub mod Startup
pub mod Teardown
pub mod Options
pub mod Exec
pub mod Resources
pub mod Shm
pub mod Wire
pub mod Remote
pub mod Handlers
pub mod Dispatch
pub mod Triple
pub mod Invariant
pub mod Completions
pub mod Framed
pub mod Isolation
pub mod Names
pub mod Leaks
pub mod Readiness
pub mod Replies
pub mod Registration
pub mod Rendezvous
pub mod Addressing
