-- ===== src/Challenge.antt =====
-- src/challenge: the challenges that the server issues.
pub mod Lissajous
pub mod Registry
pub mod Issue
pub mod Trace
mod Tests
