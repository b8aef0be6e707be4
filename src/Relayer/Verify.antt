-- ===== src/Relayer/Verify.antt =====
-- src/relayer/handler.rs: the `/verify` endpoint. The submission to the chain is a parameter.
pub mod Laws
pub mod Sent
use Prim.Native.String.{String}
use executor_node.Prelude.{
  ℕ, suc, ◌+◌, Bool, true, false, not, ◌&&◌, ◌||◌, Option, none, some, List, [], ◌∷◌, Bytes,
  Bytes_eq, bytes, nat_eq, if◌then◌else◌, Result, ok, err, length, is_some_and, unwrap_or, ◌==◌,
}
use executor_node.Error.{AppError, invalid_request, text, text_nat, text_nats}
use executor_node.Integrator.Tracker.{IntegratorTracker, check_and_deduct, refund, get_remaining}
use executor_node.Relayer.Commitments.{CommitmentRegistry, check_and_record}

pub record VerifyRequest : Type 0 where
  pub proof_generation : Option Bytes
  pub proof_bytes : Bytes
  pub public_inputs : List Bytes
  pub commitment : Bytes
  pub is_first_verification : Bool

-- Without `success`, which is always true, and `error`, which is never there.
pub record VerifyResponse : Type 0 where
  pub tx_signature : Option Bytes
  pub verified : Option Bool
  pub registered : Option Bool
  pub remaining_quota : Option ℕ

-- What the submission answers.
pub record Outcome : Type 0 where
  pub signature : Bytes
  pub is_valid : Bool

-- The fields of `AppState` that the handler uses.
pub record RelayerState : Type 0 where
  pub commitment_registry : CommitmentRegistry
  pub tracker : IntegratorTracker
  pub verifications : ℕ

-- The loop over the inputs, from the index.
unfoldable pub check_inputs : ℕ → List Bytes → Result AppError (Unit {0})
check_inputs i [] = ok tt
check_inputs i (input ∷ rest) =
    let later = check_inputs (i + 1) rest in
    if not (nat_eq (length input) 32)
    then err
        (invalid_request (text_nats "public_inputs[{}] must be 32 bytes, got {}" i (length input)))
    else later

unfoldable pub validate_proof_shape : Bytes → List Bytes → Result AppError (List Bytes)
unfolding check_inputs
validate_proof_shape proof_bytes public_inputs =
    if not (nat_eq (length proof_bytes) 256)
    then err
        (invalid_request (text_nat "proof_bytes must be 256 bytes, got {}" (length proof_bytes)))
    else (if not (nat_eq (length public_inputs) 4)
        then err (
            invalid_request
              (text_nat "public_inputs must have 4 elements, got {}" (length public_inputs)))
        else elim (check_inputs 0 public_inputs) [ err e ↦ err e | ok _ ↦ ok public_inputs ])

abbrev pub Submission : Type 0
Submission = Bytes → List Bytes → Result AppError Outcome

abbrev pub verify_key : Option Bytes → Bytes
verify_key header = unwrap_or header (bytes "authenticated")

module _ (submit : Submission) where
  -- The submission and the answer, or the refund.
  unfoldable pub submit_proof :
      RelayerState
      → Bytes
      → Bytes
      → Result AppError (List Bytes)
      → RelayerState × Result AppError VerifyResponse
  unfolding refund get_remaining
  submit_proof s api_key proof_bytes (err e) =
      (record s { tracker = refund s.tracker api_key }, err e)
  submit_proof s api_key proof_bytes (ok inputs) = elim (submit proof_bytes inputs) [
    | err e ↦ (record s { tracker = refund s.tracker api_key }, err e)
    | ok outcome ↦ (
      record s { verifications = s.verifications + 1 },
      ok (record {
        tx_signature = some outcome.signature;
        verified = some outcome.is_valid;
        registered = none;
        remaining_quota = some (get_remaining s.tracker api_key);
      }),
    )
  ]

  -- After the deduction.
  unfoldable pub verify_admitted :
      RelayerState
      → Bytes
      → VerifyRequest
      → Bool
      → Result AppError ℕ
      → RelayerState × Result AppError VerifyResponse
  unfolding submit_proof validate_proof_shape
  verify_admitted s api_key req is_first (err e) = (s, err e)
  verify_admitted s api_key req is_first (ok remaining) =
      if is_first
      then (
        s,
        ok (record {
          tx_signature = none;
          verified = none;
          registered = some true;
          remaining_quota = some remaining;
        }),
      )
      else submit_proof s api_key req.proof_bytes
          (validate_proof_shape req.proof_bytes req.public_inputs)

  unfoldable pub verify_handler :
      RelayerState
      → ℕ
      → Option Bytes
      → VerifyRequest
      → RelayerState × Result AppError VerifyResponse
  unfolding verify_admitted check_and_record check_and_deduct
  verify_handler s now header req =
      if is_some_and req.proof_generation (λ g. not (g == bytes "legacy"))
        || nat_eq (length req.public_inputs) 6
      then (
        s,
        err (
            invalid_request (
              text
                "This endpoint does not support the requested proof generation. Use authenticated wallet submission.")),
      )
      else (if not (nat_eq (length req.commitment) 32)
          then (
            s,
            err (
                invalid_request
                  (text_nat "commitment must be 32 bytes, got {}" (length req.commitment))),
          )
          else let (registry, known) =
              check_and_record s.commitment_registry now (verify_key header) req.commitment in
            let (tracker, answer) = check_and_deduct s.tracker (verify_key header) in
            verify_admitted (record s { commitment_registry = registry; tracker = tracker })
              (verify_key header) req (not known && req.is_first_verification) answer)
