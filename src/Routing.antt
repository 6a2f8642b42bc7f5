-- ===== src/Routing.antt =====
-- The routing engine: src/core/routing.
pub mod Matcher
pub mod Table
pub mod Order
pub mod Compiled
pub mod First
pub mod Missing
mod Tests
