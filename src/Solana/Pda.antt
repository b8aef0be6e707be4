-- ===== src/Solana/Pda.antt =====
-- src/solana/pda.rs: the addresses that the server derives. The derivation is the SDK's, a
-- parameter with the identities of the programs.
use executor_node.Prelude.{ℕ, List, [], ◌∷◌, Bytes, bytes}

-- `Pubkey::find_program_address` and the program identities.
pub record Programs : Type 0 where
  pub find_program_address : List Bytes → Bytes → Bytes × ℕ
  pub verifier_program : Bytes
  pub anchor_program : Bytes
  pub registry_program : Bytes
  pub attestation_program_id : Bytes
  pub system_program_id : Bytes

module _ (programs : Programs) where
  abbrev pub find_challenge_pda : Bytes → Bytes → Bytes × ℕ
  find_challenge_pda challenger nonce =
      programs.find_program_address (bytes "challenge" ∷ challenger ∷ nonce ∷ [])
        programs.verifier_program

  abbrev pub find_verification_result_pda : Bytes → Bytes → Bytes × ℕ
  find_verification_result_pda verifier nonce =
      programs.find_program_address (bytes "verification" ∷ verifier ∷ nonce ∷ [])
        programs.verifier_program

  abbrev pub find_identity_state_pda : Bytes → Bytes × ℕ
  find_identity_state_pda user =
      programs.find_program_address (bytes "identity" ∷ user ∷ []) programs.anchor_program

  abbrev pub find_protocol_config_pda : Bytes × ℕ
  find_protocol_config_pda =
      programs.find_program_address (bytes "protocol_config" ∷ []) programs.registry_program
