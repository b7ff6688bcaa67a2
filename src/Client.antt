-- ===== src/Client.antt =====
-- libscale: the library that a client links in place of libibverbs.
pub mod Structs
pub mod Socket
pub mod State
pub mod Queue
pub mod Transfer
pub mod Memory
pub mod Device
pub mod Handles
pub mod Counting
pub mod Overruns
pub mod Routed
pub mod Agreement
pub mod Calls
pub mod Behaviour
pub mod Verbs
pub mod Creation
pub mod Programs
pub mod EndToEnd
pub mod Regions
pub mod Faults
pub mod Receives
