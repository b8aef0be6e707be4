-- ===== src/Validation/RunTests.antt =====
-- Runs of the handler of src/validation/handler.rs: a chain look-up that fails, and a capture that passes.
use executor_node.Prelude.{refl, true, false, none, some, [], bytes, bytes_eq, Bytes_eq, arith}
use executor_node.Error.{solana_rpc_unavailable}
use executor_node.Map.{get, insert, remove}
use executor_node.Auth.Ip.{v4, IpAddr_eq, ip_eq}
use executor_node.Auth.ClientIp.{extract_client_ip}
use executor_node.Auth.CrossWallet.{check_cooldown, check_fingerprint, swap}
use executor_node.Challenge.Registry.{peek_challenge}
use executor_node.Integrator.Tracker.{check_and_deduct, deduct, is_exhausted, spend, remaining}
use executor_node.Integrator.WalletAttempts.{check_and_record_attempt, current, record_attempt}
use executor_node.Validation.Authorization.{verify_wallet_authorization}
use executor_node.Validation.Intent.{validate_compatibility_evidence_projection_policy}
use executor_node.Validation.Admission.{
  request_ip, check_probing_block, check_cross_wallet_cooldown, screen_client_signals,
  admit_attempt, deduct_quota,
}
use executor_node.Validation.Admission.Laws.{IsKept}
use executor_node.Validation.Handler.{
  Call, prepare, authorize, check_challenge, issued_challenge, forward, check_projection,
  identity_intent,
}
use executor_node.Validation.Verdict.{
  screen, screen_footprint, screen_signals, admitted, validated, validate_features_handler,
}
use executor_node.Validation.Verdict.Guard.{is_verdict}
use executor_node.Validation.Verdict.{conclude, judge, read_success, accept}
use executor_node.Validation.Verdict.Accepts.{IsAccepted, conclude-IsAccepted}
use executor_node.Validation.Float.{is_finite, is_nan, rank, lt, le}
use executor_node.Validation.Composite.{score, rejects, requires_friction, bounded}
use executor_node.Validation.Risk.{automation_risk, reputation_risk}
use executor_node.Validation.Handler.{
  Response, ValidateFeaturesResponse, score_success, is_risk_score,
}
use executor_node.Validation.Verdict.Laws.{validate_features_handler_keeps}
use executor_node.State.Sample.{integrator, state, services}

abbrev call : Call
call = record {
  api_key_header = some (bytes "acme");
  real_ip_header = none;
  user_agent_header = none;
  peer = some (v4 203 0 113 9);
  request = record {
    features = [];
    wallet_id = bytes "W";
    projection_version = none;
    compatibility_evidence = none;
    wallet_authorization = none;
    baseline_reset = false;
    f0_contour = none;
    accel_magnitude = none;
    audio_samples_b64 = none;
    audio_sample_rate_hz = none;
    client_signals = none;
    study = none;
  };
}

validate_features_handler_keeps_example :
    IsKept state
      (validate_features_handler services state 120 call).0
      120
      (bytes "acme")
      (bytes "W")
unfolding get insert remove bytes_eq ip_eq validate_features_handler prepare authorize
    verify_wallet_authorization validate_compatibility_evidence_projection_policy check_challenge
    issued_challenge peek_challenge screen screen_footprint screen_signals check_probing_block
    check_cross_wallet_cooldown check_cooldown check_fingerprint swap screen_client_signals
    request_ip extract_client_ip admitted admit_attempt check_and_record_attempt current
    record_attempt deduct_quota check_and_deduct deduct is_exhausted spend remaining validated
    forward check_projection identity_intent is_verdict
validate_features_handler_keeps_example =
    validate_features_handler_keeps services state 120 call (bytes "W") integrator
      solana_rpc_unavailable refl
      (refl, (omega arith, λ _. omega arith), omega arith, (omega arith, omega arith)) refl refl

abbrev passing : Response
passing = record {
  status = 200;
  success = some (record {
    valid = true;
    signed_receipt = none;
    commitment_hex = none;
    salt_hex = none;
    risks = record { biometric_risk = 0; tts_risk = 0; temporal_risk = 0; audio_realism_risk = 0 };
    study_record_status = none;
  });
  rejection = none;
}

abbrev passed : ValidateFeaturesResponse
passed = record {
  valid = true;
  remaining_quota = some 1;
  signed_receipt = none;
  commitment_hex = none;
  salt_hex = none;
  study_record_status = none;
}

conclude-IsAccepted_example :
    IsAccepted services state call
      (bytes "W")
      1
      passing
      (conclude services state 120 call (bytes "W") 1 (some passing))
unfolding conclude judge read_success accept score_success is_risk_score is_finite is_nan rank lt le
    score rejects requires_friction bounded automation_risk reputation_risk
conclude-IsAccepted_example =
    conclude-IsAccepted services state 120 call (bytes "W") 1 passing passed refl
