-- ===== src/Providers.antt =====
-- The provider adapters: src/service/providers/.
pub mod Types
pub mod Anthropic
pub mod Gemini
pub mod Compatible
pub mod Factory
pub mod Registry
pub mod Pieces
pub mod Content
pub mod Usage
pub mod Requests
pub mod Options
mod Tests
