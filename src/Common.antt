-- ===== src/Common.antt =====
-- What the router and its clients share: keys, messages and their memory layout.
pub mod Keys
pub mod Messages
pub mod Layout
pub mod Buffer
