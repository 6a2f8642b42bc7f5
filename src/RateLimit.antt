-- ===== src/RateLimit.antt =====
-- Rate limiting: src/core/ratelimit and src/service/middleware/ratelimit.rs.
pub mod Store
pub mod Sliding
pub mod Log
pub mod Window
pub mod Bucket
pub mod Burst
pub mod Middleware
pub mod Redis
pub mod Scripts
mod Tests

pub data Decision : Type 0 where
  allow deny : Decision
