-- ===== src/Paired/Tests.antt =====
-- Runs of src/paired, and the theorems at concrete inputs.
use executor_node.Prelude.{
  ◌≡◌, refl, ◌≢◌, ◌⊎◌, true, false, none, some, [], ◌∷◌, Bytes, bytes, bytes_eq, Bytes_eq, ok,
  replicate, arith,
}
use executor_node.Error.{AppError, paired_rejected, validation_failed, solana_rpc_unavailable}
use executor_node.Map.{get, insert, remove}
use executor_node.Auth.Ip.{v4, IpAddr_eq, ip_eq}
use executor_node.Auth.ClientIp.{extract_client_ip}
use executor_node.Auth.CrossWallet.{check_cooldown, check_fingerprint, swap}
use executor_node.Integrator.Tracker.{check_and_deduct, deduct, is_exhausted, spend, remaining}
use executor_node.Integrator.WalletAttempts.{
  check_and_record_attempt, current, record_attempt, refund_on_success,
}
use executor_node.Validation.Admission.{
  request_ip, check_probing_block, check_cross_wallet_cooldown, screen_client_signals,
  admit_attempt, deduct_quota,
}
use executor_node.Validation.Admission.Laws.{IsKept}
use executor_node.Validation.Composite.{score, rejects, requires_friction, bounded}
use executor_node.Validation.Float.{is_finite, is_nan, rank, lt, le}
use executor_node.Validation.Handler.{
  ValidatorErrorBody, identity_intent, score_success, is_risk_score,
}
use executor_node.Validation.Intent.{ProjectionIntent}
use executor_node.Validation.Risk.{automation_risk, reputation_risk}
use executor_node.Validation.Verdict.Guard.{is_verdict}
use executor_node.Validation.Verdict.Untouched.{IsUntouched}
use executor_node.Paired.Upstream.{Reply, RawResponse, valid_retry_after, read_bounded, read_chunks}
use executor_node.Text.{parse_u64, parse_digits}
use executor_node.Paired.Sessions.{
  Relay, Origin, OpenRequest, PairedResponse, not_found, open_handler,
}
use executor_node.Paired.Sessions.Laws.{IsOpened, open_handler_lem}
use executor_node.Paired.Finalize.{SegmentPayload, within_bounds, check_session}
use executor_node.Paired.Finalize.Handler.{
  SessionCall, Bodies, ValidateSessionResponse, conclude_session, judge_session, read_accepted,
  accept_session, reject_session, refuse, refusal, listed_reason, validate_session_handler,
  session_screen, session_footprint, session_signals, session_admitted, session_forwarded,
  forward_session,
}
use executor_node.Paired.Finalize.Kept.{validate_session_handler_keeps}
use executor_node.Paired.Finalize.Accepts.{IsPassed, conclude_session-IsPassed}
use executor_node.Paired.Finalize.Reasons.{IsPublic, reject_session_lem, conclude_session-IsPublic}
use executor_node.State.{AppState}
use executor_node.State.Sample.{integrator, services, state}

wait_capped : valid_retry_after (bytes "18446744073709551615") ≡ some 300
unfolding valid_retry_after parse_u64 parse_digits
wait_capped = refl

abbrev split_body : RawResponse
split_body = record {
  status = 200;
  retry_after_header = none;
  content_length = none;
  chunks = some (bytes "ab") ∷ some (bytes "cd") ∷ [];
}

body_in_bound : read_bounded split_body 4 ≡ some (bytes "abcd")
unfolding read_bounded read_chunks
body_in_bound = refl

body_too_long : read_bounded split_body 3 ≡ none
unfolding read_bounded read_chunks
body_too_long = refl

-- JSON is its text; any body is a success of tier 1 with no risk, and a reason of its own text.
abbrev bodies : Bodies
bodies = record {
  Json = Bytes;
  from_slice = λ b. some b;
  success = λ b. some (record {
    valid = true;
    signed_receipt = none;
    commitment_hex = none;
    salt_hex = none;
    risks = record { biometric_risk = 0; tts_risk = 0; temporal_risk = 0; audio_realism_risk = 0 };
    study_record_status = none;
  });
  assurance_tier = λ b. some 1;
  rejection = λ b. none;
  reason = λ b. some b;
  post = λ b. none;
}

abbrev segment : SegmentPayload
segment = record { round_index = 0; audio_b64 = []; coarse_path_hex = [] }

abbrev session_call : SessionCall
session_call = record {
  api_key_header = some (bytes "acme");
  real_ip_header = none;
  user_agent_header = none;
  peer = some (v4 203 0 113 9);
  request = record {
    capture_protocol = bytes "paired";
    wallet_id = bytes "W";
    projection_version = 1;
    session_id = replicate 32 48;
    final_digest = replicate 64 48;
    segments = segment ∷ segment ∷ segment ∷ [];
    features = replicate 308 0;
    f0_contour = none;
    accel_magnitude = none;
    capture_timing = none;
    client_signals = none;
    baseline_reset = false;
    attestation = none;
  };
}

validate_session_handler_keeps_example :
    IsKept state
      (validate_session_handler services bodies state 120 session_call).0
      120
      (bytes "acme")
      (bytes "W")
unfolding get insert remove bytes_eq ip_eq validate_session_handler check_session within_bounds
    session_screen session_footprint session_signals check_probing_block check_cross_wallet_cooldown
    check_cooldown check_fingerprint swap screen_client_signals request_ip extract_client_ip
    session_admitted admit_attempt check_and_record_attempt current record_attempt deduct_quota
    check_and_deduct deduct is_exhausted spend remaining session_forwarded forward_session
    identity_intent is_verdict
validate_session_handler_keeps_example =
    validate_session_handler_keeps services bodies state 120 session_call (bytes "W") integrator
      solana_rpc_unavailable refl
      (refl, (omega arith, λ _. omega arith), omega arith, (omega arith, omega arith)) refl refl

abbrev success : Reply Bytes
success = record { status = 200; retry_after = none; body = some [] }

abbrev passed : ValidateSessionResponse
passed = record {
  valid = true;
  remaining_quota = some 1;
  signed_receipt = none;
  commitment_hex = none;
  salt_hex = none;
  assurance_tier = 1;
}

conclude_session-IsPassed_example :
    IsPassed services bodies state session_call (bytes "W") success passed (
      conclude_session services bodies 120 session_call
        (bytes "W")
        1
        state
        (ProjectionIntent.mint, success))
unfolding conclude_session judge_session read_accepted accept_session score_success is_risk_score
    is_finite is_nan rank lt le score rejects requires_friction bounded automation_risk
    reputation_risk
conclude_session-IsPassed_example =
    conclude_session-IsPassed services bodies 120 session_call (bytes "W") 1 state
      ProjectionIntent.mint success passed refl

abbrev expired : Reply Bytes
expired = record { status = 410; retry_after = none; body = some (bytes "session_expired") }

conclude_session-IsPublic_example : IsPublic (paired_rejected 410 "session_expired")
unfolding conclude_session judge_session refuse refusal listed_reason bytes_eq
conclude_session-IsPublic_example =
    conclude_session-IsPublic services bodies 120 session_call (bytes "W") 1 state
      ProjectionIntent.mint expired (paired_rejected 410 "session_expired") refl

abbrev relay_ : Relay
relay_ = record {
  Json = Bytes;
  from_slice = λ b. some b;
  from_str = λ t. some t;
  parse_ip = λ t. none;
  post = λ f. some split_body;
}

abbrev origin : Origin
origin = record { real_ip_header = none; user_agent_header = none; peer = none }

abbrev opening : OpenRequest
opening = record { protocol_version = some 2; wallet = bytes "W"; tier = bytes "trace" }

-- A session opens at no cost.
opened :
    IsUntouched state (open_handler relay_ state 120 [] origin opening).0
    × ((r : PairedResponse Bytes)
        → (open_handler relay_ state 120 [] origin opening).1 ≡ ok r
        → (r ≡ not_found) ⊎ IsOpened relay_ state 120 opening r)
opened = open_handler_lem relay_ state 120 [] origin opening

abbrev retry : ValidatorErrorBody
retry = record {
  reason = some (bytes "anchor_retry");
  risks = record { biometric_risk = 0; tts_risk = 0; temporal_risk = 0; audio_realism_risk = 0 };
  probing_detected = none;
  study_record_status = none;
}

retried : AppState × AppError
retried = reject_session state 120 (v4 203 0 113 9) (bytes "W") ProjectionIntent.mint retry

reject_session_lem_example :
    (retried.0.tracker ≡ state.tracker)
    × (retried.0.probing_blocklist ≡ state.probing_blocklist)
    × (((true ≡ true)
          × (retry.probing_detected ≢ some true)
          × (retry.reason ≡ some (bytes "anchor_retry"))
          × (retried.1 ≡ validation_failed (some "anchor_retry"))
          × (retried.0.wallet_attempts ≡ refund_on_success state.wallet_attempts (bytes "W")))
        ⊎ ((retried.1 ≢ validation_failed (some "anchor_retry"))
            × (retried.0.wallet_attempts ≡ state.wallet_attempts)))
unfolding retried reject_session
reject_session_lem_example =
    reject_session_lem state 120 (v4 203 0 113 9) (bytes "W") ProjectionIntent.mint retry
