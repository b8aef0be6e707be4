-- ===== src/Relayer/Verify/Sent.antt =====
-- What an answer of `/verify` of src/relayer/handler.rs says of the chain, with the submission of
-- src/relayer/transaction.rs.
use executor_node.Prelude.{
  ℕ, List, false, refl, [], ◌∷◌, ◌++◌, ◌≡◌, ◌⊎◌, ◌==◌, ◌||◌, ◌&&◌, not, nat_eq, bytes, Bytes_eq,
  is_some_and, sym, ap, ◌∙◌, inl, inr, Bool, true, Option, none, some, Bytes, All, arith, Result,
  ok, err, length, Bool-cases, Result-cases,
}
use executor_node.Error.{AppError}
use executor_node.Validation.Digest.{little_endian}
use executor_node.Solana.Pda.{find_challenge_pda, find_verification_result_pda}
use executor_node.Solana.Instructions.{
  Instruction, writable, readonly, concat, build_create_challenge, build_verify_proof,
}
use executor_node.Integrator.Tracker.{check_and_deduct}
use executor_node.Relayer.Commitments.{check_and_record}
use executor_node.Relayer.Verify.{
  VerifyRequest, VerifyResponse, RelayerState, validate_proof_shape, submit_proof, verify_admitted,
  verify_key, verify_handler,
}
use executor_node.Relayer.Verify.Laws.{IsWord, validate_proof_shape_lem}
use executor_node.Relayer.Transaction.{Relayer, verification_instructions, submit_verification}

-- The instructions of one transaction that proves: the first creates the challenge of the nonce,
-- and the second verifies the proof and its inputs against that challenge, under the same nonce.
pub record IsProving (client : Relayer) (nonce proof_bytes : Bytes) (public_inputs : List Bytes)
    (sent : List Instruction) : Type 0 where
  pub create : Instruction
  pub verify : Instruction
  pub both : sent ≡ create ∷ verify ∷ []
  pub create_program : create.program_id ≡ client.programs.verifier_program
  pub create_accounts :
      create.accounts
      ≡ writable client.relayer_pubkey true
        ∷ writable (find_challenge_pda client.programs client.relayer_pubkey nonce).0 false
        ∷ readonly client.programs.system_program_id false
        ∷ []
  pub create_data : create.data_ ≡ (170 ∷ 244 ∷ 47 ∷ 1 ∷ 1 ∷ 15 ∷ 173 ∷ 239 ∷ []) ++ nonce
  pub verify_program : verify.program_id ≡ client.programs.verifier_program
  pub verify_accounts :
      verify.accounts
      ≡ writable client.relayer_pubkey true
        ∷ writable (find_challenge_pda client.programs client.relayer_pubkey nonce).0 false
        ∷ writable
            (find_verification_result_pda client.programs client.relayer_pubkey nonce).0
            false
        ∷ readonly client.programs.system_program_id false
        ∷ []
  pub verify_data :
      verify.data_
      ≡ (217 ∷ 211 ∷ 191 ∷ 110 ∷ 144 ∷ 13 ∷ 186 ∷ 98 ∷ [])
        ++ (little_endian 4 256
            ++ proof_bytes
            ++ (little_endian 4 4 ++ (concat public_inputs ++ nonce)))

verification_instructions-IsProving :
    (client : Relayer) (nonce proof_bytes : Bytes) (public_inputs : List Bytes)
    → length proof_bytes ≡ 256
    → length public_inputs ≡ 4
    → IsProving client nonce proof_bytes public_inputs
        (verification_instructions client nonce proof_bytes public_inputs)
unfolding verification_instructions build_create_challenge build_verify_proof
verification_instructions-IsProving client nonce proof_bytes public_inputs long four =
    let challenge_pda = (find_challenge_pda client.programs client.relayer_pubkey nonce).0 in
    record {
      create = build_create_challenge client.programs client.relayer_pubkey challenge_pda nonce;
      verify =
          build_verify_proof client.programs client.relayer_pubkey challenge_pda
            (find_verification_result_pda client.programs client.relayer_pubkey nonce).0 proof_bytes
            public_inputs nonce;
      both = refl;
      create_program = refl;
      create_accounts = refl;
      create_data = refl;
      verify_program = refl;
      verify_accounts = refl;
      verify_data = rw (long, four) refl;
    }

module _ (client : Relayer) (nonce : Bytes) where
  -- The chain has confirmed the request's proof.
  abbrev pub IsConfirmed : VerifyRequest → Bytes → Type 0
  IsConfirmed req signature =
      (length req.proof_bytes ≡ 256)
      × (length req.public_inputs ≡ 4)
      × All IsWord req.public_inputs
      × ((sent : List Instruction) × IsProving client nonce req.proof_bytes req.public_inputs sent
          × (client.send_verification_tx sent ≡ ok signature))

  submit_proof-IsConfirmed :
      (s : RelayerState) (k : Bytes) (req : VerifyRequest) (r : VerifyResponse)
      → (submit_proof
          (submit_verification client nonce)
          s
          k
          req.proof_bytes
          (validate_proof_shape req.proof_bytes req.public_inputs)).1
        ≡ ok r
      → (r.registered ≡ none)
        × (r.verified ≡ some true)
        × ((signature : Bytes) × (r.tx_signature ≡ some signature) × IsConfirmed req signature)
  unfolding submit_proof submit_verification
  submit_proof-IsConfirmed s k req r h =
      elim (Result-cases (validate_proof_shape req.proof_bytes req.public_inputs)) [
        | inr (e, misshaped) ↦ absurd (ground (arith, rw (misshaped, submit_proof) at h))
        | inl (passed, shaped) ↦
            elim (Result-cases (
              client.send_verification_tx
                (verification_instructions client nonce req.proof_bytes passed))) [
                  | inr (e, failed) ↦
                      absurd (
                        ground (arith, rw (shaped, submit_verification, failed, submit_proof) at h))
                  | inl (sig, sent) ↦
                      let same = rw (shaped, submit_verification, sent, submit_proof) at h in
                      let (long, four, words, kept) =
                        (validate_proof_shape_lem req.proof_bytes req.public_inputs passed).0
                          shaped in
                      let told : ok sig
                          ≡ client.send_verification_tx (
                              verification_instructions client nonce req.proof_bytes
                                req.public_inputs) =
                        sym sent
                        ∙ ap
                            (λ x.
                              client.send_verification_tx
                                (verification_instructions client nonce req.proof_bytes x))
                            (sym kept) in
                      (
                        ground (arith, same),
                        ground (arith, same),
                        (
                          sig,
                          ground (arith, same),
                          (
                            long,
                            four,
                            words,
                            (
                              verification_instructions client nonce req.proof_bytes
                                  req.public_inputs,
                              verification_instructions-IsProving client nonce req.proof_bytes
                                  req.public_inputs long four,
                              sym told,
                            ),
                          ),
                        ),
                      )
                ]
      ]

  -- What an answer says.
  abbrev pub IsAnswer : VerifyRequest → VerifyResponse → Type 0
  IsAnswer req r =
      ((req.is_first_verification ≡ true) × (r.registered ≡ some true) × (r.tx_signature ≡ none))
      ⊎ ((r.registered ≡ none)
          × (r.verified ≡ some true)
          × ((signature : Bytes) × (r.tx_signature ≡ some signature) × IsConfirmed req signature))

  verify_admitted-IsAnswer :
      (s : RelayerState) (k : Bytes) (req : VerifyRequest) (known : Bool)
      (granted : Result AppError ℕ) (r : VerifyResponse)
      → (verify_admitted
          (submit_verification client nonce)
          s
          k
          req
          (not known && req.is_first_verification)
          granted).1
        ≡ ok r
      → IsAnswer req r
  unfolding verify_admitted
  verify_admitted-IsAnswer s k req known (err e) r h = absurd (ground arith)
  verify_admitted-IsAnswer s k req known (ok n) r h =
      elim (Bool-cases (not known && req.is_first_verification)) [
        | inl first ↦
            let same = rw (first, verify_admitted) at h in
            inl (ground (arith, first), ground (arith, same), ground (arith, same))
        | inr again ↦ inr (submit_proof-IsConfirmed s k req r (rw (again, verify_admitted) at h))
      ]

  -- A call of `/verify` that is answered either registers a first verification without a transaction, or tells the signature of a transaction that the chain has confirmed. That transaction creates a challenge and verifies the request's proof, of 256 bytes with four inputs of 32 bytes, under the same nonce, and the answer says that the proof is verified.
  pub verify_handler-IsAnswer :
      (s : RelayerState) (now : ℕ) (header : Option Bytes) (req : VerifyRequest)
      (r : VerifyResponse)
      → (verify_handler (submit_verification client nonce) s now header req).1 ≡ ok r
      → IsAnswer req r
  unfolding verify_handler
  verify_handler-IsAnswer s now header req r h =
      elim (Bool-cases (
        is_some_and req.proof_generation (λ g. not (g == bytes "legacy"))
        || nat_eq (length req.public_inputs) 6)) [
          | inl other ↦ absurd (ground (arith, rw (other, verify_handler) at h))
          | inr legacy ↦ elim (Bool-cases (nat_eq (length req.commitment) 32)) [
            | inr short ↦ absurd (ground (arith, rw (legacy, short, verify_handler) at h))
            | inl long ↦
                let k = verify_key header in
                let recorded = check_and_record s.commitment_registry now k req.commitment in
                let granted = check_and_deduct s.tracker k in
                verify_admitted-IsAnswer
                  (record s { commitment_registry = recorded.0; tracker = granted.0 }) k req
                  recorded.1 granted.1 r (rw (legacy, long, verify_handler) at h)
          ]
        ]
