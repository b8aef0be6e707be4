-- ===== src/Validation.antt =====
-- src/validation: the validation of a capture, from its request to the verdict.
pub mod Float
pub mod Composite
pub mod Request
pub mod Digest
pub mod Authorization
pub mod Intent
pub mod Admission
pub mod Risk
pub mod Reputation
pub mod Handler
pub mod Verdict
mod Tests
mod RunTests
mod ReputationTests
