-- ===== src/GatewayIn.antt =====
-- The DMZ side of the reverse tunnel, backend/services/gateway-in/internal/tunnel.
pub mod Routes
pub mod Errors
pub mod Scheduler
pub mod Session
pub mod Peer
pub mod Request
pub mod Registry
pub mod Config
pub mod Handshake
