-- ===== src/Proxy.antt =====
-- Requests and responses on their way through the gateway: src/core/proxy/.
pub mod Transformer
pub mod Body
pub mod Headers
pub mod Batch
pub mod Cut
pub mod Ws
pub mod Relay
mod Tests
