-- ===== src/Attestation/Instructions.antt =====
-- src/attestation/instructions.rs: the instructions of the attestation service.
use executor_node.Prelude.{ℕ, true, false, [], ◌∷◌, ◌++◌, Bytes, ℤ, to_bits}
use executor_node.Validation.Digest.{little_endian}
use executor_node.Solana.Pda.{Programs}
use executor_node.Solana.Instructions.{Instruction, writable, readonly, borsh_bytes}

abbrev pub create_attestation_index : ℕ
create_attestation_index = 6

abbrev pub close_attestation_index : ℕ
close_attestation_index = 7

pub record CreateAttestationAccounts : Type 0 where
  pub payer : Bytes
  pub authority : Bytes
  pub credential : Bytes
  pub schema : Bytes
  pub attestation : Bytes

pub record CloseAttestationAccounts : Type 0 where
  pub payer : Bytes
  pub authority : Bytes
  pub credential : Bytes
  pub attestation : Bytes
  pub event_authority : Bytes

module _ (programs : Programs) where
  unfoldable pub build_create_attestation :
      CreateAttestationAccounts → Bytes → Bytes → ℤ → Instruction
  unfolding little_endian
  build_create_attestation a nonce data_ expiry = record {
    program_id = programs.attestation_program_id;
    accounts =
        writable a.payer true
        ∷ readonly a.authority true
        ∷ readonly a.credential false
        ∷ readonly a.schema false
        ∷ writable a.attestation false
        ∷ readonly programs.system_program_id false
        ∷ [];
    data_ =
        (create_attestation_index ∷ nonce)
        ++ (borsh_bytes data_ ++ little_endian 8 (to_bits expiry));
  }

  -- The program reads its own identity from the last account.
  unfoldable pub build_close_attestation : CloseAttestationAccounts → Instruction
  build_close_attestation a = record {
    program_id = programs.attestation_program_id;
    accounts =
        writable a.payer true
        ∷ readonly a.authority true
        ∷ readonly a.credential false
        ∷ writable a.attestation false
        ∷ readonly a.event_authority false
        ∷ readonly programs.system_program_id false
        ∷ readonly programs.attestation_program_id false
        ∷ [];
    data_ = close_attestation_index ∷ [];
  }
