-- ===== src/Router/Handlers.antt =====
-- The cases of `handle_process` in scalerouter/scalerouter.cpp.
pub mod Memory
pub mod Attach
pub mod QueuePair
pub mod Transfer
pub mod Query
pub mod Legacy
