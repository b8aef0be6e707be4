-- ===== src/Relayer/VerifyTests.antt =====
-- Small calls of `/verify` of src/relayer/handler.rs.
use executor_node.Prelude.{
  ◌≡◌, refl, true, false, none, some, List, [], ◌∷◌, Bytes, bytes, bytes_eq, Bytes_eq, arith, ok,
  err, replicate,
}
use executor_node.Error.{transaction_submission_failed}
use executor_node.Map.{get, insert, remove}
use executor_node.Integrator.Tracker.{
  IntegratorState, check_and_deduct, deduct, is_exhausted, spend, remaining, get_remaining,
}
use executor_node.Relayer.Commitments.{check_and_record, record_commitment, make_room}
use executor_node.Relayer.Verify.{
  VerifyRequest, VerifyResponse, RelayerState, Submission, check_inputs, validate_proof_shape,
  submit_proof, verify_admitted, verify_handler,
}
use executor_node.Relayer.Transaction.{Relayer, submit_verification}
use executor_node.Relayer.Verify.Sent.{IsAnswer, verify_handler-IsAnswer}
use executor_node.Relayer.Commitments.Laws.{is_known}
use executor_node.Relayer.Verify.Laws.{verify_handler_keeps, verify_handler_recorded}

abbrev proof : Bytes
proof = replicate 256 1

abbrev inputs : List Bytes
inputs = replicate 4 (replicate 32 2)

abbrev key : Bytes
key = bytes "acme"

abbrev down : Submission
down p i = err transaction_submission_failed

abbrev up : Submission
up p i = ok (record { signature = bytes "sig"; is_valid = true })

abbrev again : VerifyRequest
again = record {
  proof_generation = none;
  proof_bytes = proof;
  public_inputs = inputs;
  commitment = replicate 32 7;
  is_first_verification = false;
}

abbrev first : VerifyRequest
first = record again { is_first_verification = true }

abbrev integrator : IntegratorState
integrator = record { name = []; quota = 2; used = 1 }

abbrev state : RelayerState
state = record {
  commitment_registry = record { entries = [] };
  tracker = record { state = (key, integrator) ∷ []; allow_unknown = false };
  verifications = 0;
}

abbrev spent : RelayerState
spent = record state {
  tracker = record { state = (key, record integrator { used = 2 }) ∷ []; allow_unknown = false };
}

verify_handler_keeps_example :
    get key (verify_handler down state 5 (some key) again).0.tracker.state ≡ some integrator
unfolding get bytes_eq verify_handler verify_admitted submit_proof validate_proof_shape check_inputs
    check_and_deduct deduct is_exhausted spend remaining
verify_handler_keeps_example =
    verify_handler_keeps down state 5 (some key) again integrator transaction_submission_failed refl
      (omega arith, λ _. omega arith) (omega arith) refl

abbrev answered : VerifyResponse
answered = record {
  tx_signature = some (bytes "sig");
  verified = some true;
  registered = none;
  remaining_quota = some 0;
}

-- The state after the refused call, once the quota is renewed.
abbrev renewed : RelayerState
renewed = record (verify_handler up spent 5 (some key) first).0 { tracker = state.tracker }

verify_handler_recorded_example :
    (is_known
        (verify_handler up spent 5 (some key) first).0.commitment_registry
        key
        (replicate 32 7)
      ≡ true)
    × (answered.registered ≡ none)
unfolding get insert remove bytes_eq verify_handler verify_admitted submit_proof
    validate_proof_shape check_inputs check_and_deduct deduct is_exhausted spend remaining
    check_and_record record_commitment make_room get_remaining
verify_handler_recorded_example =
    verify_handler_recorded up spent renewed 5 9 (some key) first again answered refl refl refl refl

abbrev relayer : Relayer
relayer = record {
  programs = record {
    find_program_address = λ seeds program. (program, 255);
    verifier_program = 10 ∷ [];
    anchor_program = 11 ∷ [];
    registry_program = 12 ∷ [];
    attestation_program_id = 13 ∷ [];
    system_program_id = 14 ∷ [];
  };
  relayer_pubkey = replicate 32 15;
  send_verification_tx = λ instructions. ok (bytes "sig");
}

abbrev nonce : Bytes
nonce = replicate 32 9

verify_handler-IsAnswer_example : IsAnswer relayer nonce again answered
unfolding get bytes_eq verify_handler verify_admitted submit_proof validate_proof_shape check_inputs
    check_and_deduct deduct is_exhausted spend remaining check_and_record record_commitment
    make_room get_remaining insert remove submit_verification
verify_handler-IsAnswer_example =
    verify_handler-IsAnswer relayer nonce state 5 (some key) again answered refl
