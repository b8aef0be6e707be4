-- ===== src/Solana/Instructions.antt =====
-- src/solana/instructions.rs: the instructions of a verification.
use executor_node.Prelude.{Bool, true, false, List, [], ◌∷◌, ◌++◌, Bytes, length}
use executor_node.Validation.Digest.{little_endian}
use executor_node.Solana.Pda.{Programs}

pub record AccountMeta : Type 0 where
  pub pubkey : Bytes
  pub is_signer : Bool
  pub is_writable : Bool

pub record Instruction : Type 0 where
  pub program_id : Bytes
  pub accounts : List AccountMeta
  pub data_ : Bytes

-- `AccountMeta::new` and `AccountMeta::new_readonly`
abbrev pub writable : Bytes → Bool → AccountMeta
writable key signer = record { pubkey = key; is_signer = signer; is_writable = true }

abbrev pub readonly : Bytes → Bool → AccountMeta
readonly key signer = record { pubkey = key; is_signer = signer; is_writable = false }

abbrev pub create_challenge_disc : Bytes
create_challenge_disc = 170 ∷ 244 ∷ 47 ∷ 1 ∷ 1 ∷ 15 ∷ 173 ∷ 239 ∷ []

abbrev pub verify_proof_disc : Bytes
verify_proof_disc = 217 ∷ 211 ∷ 191 ∷ 110 ∷ 144 ∷ 13 ∷ 186 ∷ 98 ∷ []

-- The public inputs one after the other.
unfoldable pub concat : List Bytes → Bytes
concat [] = []
concat (input ∷ inputs) = input ++ concat inputs

-- A borsh vector of bytes.
abbrev pub borsh_bytes : Bytes → Bytes
borsh_bytes data_ = little_endian 4 (length data_) ++ data_

module _ (programs : Programs) where
  unfoldable pub build_create_challenge : Bytes → Bytes → Bytes → Instruction
  build_create_challenge challenger challenge_pda nonce = record {
    program_id = programs.verifier_program;
    accounts =
        writable challenger true
        ∷ writable challenge_pda false
        ∷ readonly programs.system_program_id false
        ∷ [];
    data_ = create_challenge_disc ++ nonce;
  }

  unfoldable pub build_verify_proof :
      Bytes → Bytes → Bytes → Bytes → List Bytes → Bytes → Instruction
  unfolding little_endian concat
  build_verify_proof verifier challenge_pda verification_pda proof_bytes public_inputs nonce =
      record {
        program_id = programs.verifier_program;
        accounts =
            writable verifier true
            ∷ writable challenge_pda false
            ∷ writable verification_pda false
            ∷ readonly programs.system_program_id false
            ∷ [];
        data_ =
            verify_proof_disc
            ++ (borsh_bytes proof_bytes
                ++ (little_endian 4 (length public_inputs) ++ (concat public_inputs ++ nonce)));
      }
