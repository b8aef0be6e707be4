-- ===== src/Integrator.antt =====
-- src/integrator: the quota of an API key and the attempts of a wallet.
pub mod Tracker
pub mod WalletAttempts
mod Tests
