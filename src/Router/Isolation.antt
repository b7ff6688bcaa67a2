-- ===== src/Router/Isolation.antt =====
-- scalerouter/scalerouter.cpp: what a session leaves of the virtual queue pairs of other clients.
mod Rules
mod Actions
mod Release
mod Handlers
pub mod Sessions
pub mod Overlap
pub mod Held
