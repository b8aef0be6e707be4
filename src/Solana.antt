-- ===== src/Solana.antt =====
-- src/solana: the addresses and the instructions of the on-chain programs.
pub mod Pda
pub mod Instructions
