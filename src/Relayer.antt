-- ===== src/Relayer.antt =====
-- src/relayer: the walletless verification route.
pub mod Commitments
pub mod Verify
pub mod Transaction
mod Tests
mod VerifyTests
