-- ===== src/Relayer/Transaction.antt =====
-- src/relayer/transaction.rs: the submission of a proof. The relayer's key, the random nonce and the
-- sending are parameters; the signature of a transaction is its text.
use executor_node.Prelude.{true, List, [], ◌∷◌, Bytes, Result, ok, err}
use executor_node.Error.{AppError}
use executor_node.Solana.Pda.{Programs, find_challenge_pda, find_verification_result_pda}
use executor_node.Solana.Instructions.{Instruction, build_create_challenge, build_verify_proof}
use executor_node.Relayer.Verify.{Submission}

pub record Relayer : Type 0 where
  pub programs : Programs
  pub relayer_pubkey : Bytes
  pub send_verification_tx : List Instruction → Result AppError Bytes

-- The two instructions of one transaction.
unfoldable pub verification_instructions : Relayer → Bytes → Bytes → List Bytes → List Instruction
verification_instructions client nonce proof_bytes public_inputs =
    let challenge_pda = (find_challenge_pda client.programs client.relayer_pubkey nonce).0 in
    let verification_pda =
      (find_verification_result_pda client.programs client.relayer_pubkey nonce).0 in
    build_create_challenge client.programs client.relayer_pubkey challenge_pda nonce
    ∷ build_verify_proof client.programs client.relayer_pubkey challenge_pda verification_pda
        proof_bytes public_inputs nonce
    ∷ []

-- A transaction that is confirmed has verified its proof.
unfoldable pub submit_verification : Relayer → Bytes → Submission
unfolding verification_instructions
submit_verification client nonce proof_bytes public_inputs =
    elim (client.send_verification_tx
      (verification_instructions client nonce proof_bytes public_inputs)) [
        | err e ↦ err e
        | ok signature ↦ ok (record { signature = signature; is_valid = true })
      ]
