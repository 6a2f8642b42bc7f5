-- ===== src/OAuth.antt =====
-- Outbound tokens: src/core/auth/oauth2.rs.
pub mod Scopes
pub mod Client
pub mod Expiry
pub mod Tokens
pub mod Refused
mod Tests
