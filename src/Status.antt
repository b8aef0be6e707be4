-- ===== src/Status.antt =====
-- src/status: the counters of the server, and who may read which of them.
pub mod Metrics
pub mod Handler
mod Tests
