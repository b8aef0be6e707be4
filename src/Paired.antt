-- ===== src/Paired.antt =====
-- src/paired: three rounds and one finalize, over the validation service.
pub mod Upstream
pub mod Sessions
pub mod Finalize
mod Tests
