-- ===== src/Admin.antt =====
-- What the gateway tells of itself and of its errors: src/service/admin/routes.rs,
-- src/service/error.rs and src/service/middleware/recovery.rs.
pub mod Views
pub mod Errors
pub mod Redacted
mod Tests
