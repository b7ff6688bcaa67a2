-- ===== src/Router/Framed.antt =====
-- What the handlers keep of the router.
pub mod Rules
pub mod Actions
pub mod Handlers
