-- ===== src/Audit.antt =====
-- Token counts for audit and billing: src/core/audit/.
pub mod Counter
pub mod Sums
mod Tests
