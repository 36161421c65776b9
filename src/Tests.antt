-- ===== src/Tests.antt =====
-- The theorems at concrete inputs.
pub mod Samples
pub mod Frames
pub mod Requests
pub mod Queues
pub mod Registries
pub mod Handshakes
pub mod Sessions
pub mod Peers
pub mod Selections
