-- ===== src/Protocol.antt =====
-- The tunnel protocol v1 of backend/api/tunnel/v1: the frames, and their structural validation.
pub mod Enums
pub mod Numbers
pub mod Routes
pub mod Errors
pub mod Messages
pub mod Bounds
pub mod Headers
pub mod Members
pub mod Hello
pub mod Bytes
pub mod Trace
pub mod Metadata
pub mod Reflect
pub mod Payloads
pub mod Validate
pub mod Decode
