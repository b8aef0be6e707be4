-- ===== src/Config.antt =====
-- src/config.rs: the values that the server starts with.
pub mod Values
pub mod Scoring
mod Tests
