-- ===== src/Server.antt =====
-- src/server.rs, src/timing.rs, src/padding.rs and src/study.rs: what stands around the handlers.
pub mod Timing
pub mod Padding
pub mod Study
pub mod Layers
pub mod Router
mod Tests
