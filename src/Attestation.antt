-- ===== src/Attestation.antt =====
-- src/attestation: the attestations that the server issues to verified wallets.
pub mod Sas
pub mod Instructions
pub mod Issue
pub mod Signature
pub mod Handler
mod Tests
