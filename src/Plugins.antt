-- ===== src/Plugins.antt =====
-- Plugins: src/core/plugins/.
pub mod Types
pub mod Registry
pub mod Native
pub mod Wasm
pub mod Hooks
pub mod Kept
mod Tests
