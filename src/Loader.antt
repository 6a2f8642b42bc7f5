-- ===== src/Loader.antt =====
-- Loading the configuration: src/service/config_loader.rs.
pub mod Validate
pub mod Checks
pub mod Exact
pub mod Expand
pub mod Template
pub mod Ascii
pub mod Load
pub mod Reload
mod Tests
