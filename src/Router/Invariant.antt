-- ===== src/Router/Invariant.antt =====
-- The safety of the router: no request of the IBV_ functions breaks its invariant.
pub mod Users
pub mod Defs
pub mod Frame
pub mod Objects
pub mod Ready
pub mod Shared
pub mod Attach
pub mod Counts
pub mod Release
pub mod Destroy
pub mod Lookup
pub mod Requests
pub mod Handshake
pub mod Safety
