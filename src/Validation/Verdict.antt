-- ===== src/Validation/Verdict.antt =====
-- src/validation/handler.rs: the end of `validate_features_handler`, from the validator's response
-- to the verdict, and the whole of it.
pub mod Untouched
pub mod Guard
pub mod Refunds
pub mod Accepts
pub mod Laws
use executor_node.Prelude.{
  ℕ, ◌+◌, ◌*◌, Bool, true, false, not, ◌&&◌, Option, none, some, Bytes, bytes, Bytes_eq, ◌==◌, leb,
  nat_eq, if◌then◌else◌, Result, ok, err, is_some_and, is_some,
}
use executor_node.Clock.{from_secs}
use executor_node.Error.{AppError, validation_service_unavailable, projection_update_required}
use executor_node.Map.{insert}
use executor_node.Auth.Ip.{IpAddr, IpAddr_eq}
use executor_node.Integrator.Tracker.{get_remaining}
use executor_node.Validation.Composite.{RiskComponents}
use executor_node.Validation.Risk.{automation_risk, reputation_risk}
use executor_node.Validation.Admission.{
  Step, request_ip, check_probing_block, check_cross_wallet_cooldown, screen_client_signals,
  admit_attempt, refund_infrastructure_failure,
}
use executor_node.Validation.Handler.{
  Services, Call, Prepared, Response, ValidatorSuccessBody, ValidatorErrorBody,
  ValidateFeaturesResponse, andthen, api_key_of, user_agent_of, parsed_success, parsed_rejection,
  validation_failure, is_risk_score, prepare, forward, score_success,
}
use executor_node.State.{AppState}

-- The drop of `PreForwardBudgetGuard` before `validator_reached`.
abbrev pub guarded : {A : Type 0} → Bytes → Bytes → Step A → Step A
guarded api_key wallet (s, err e) = (refund_infrastructure_failure s api_key wallet, err e)
guarded api_key wallet (s, ok a) = (s, ok a)

-- A rejection of the validator that counts, with the block that it may ask for.
unfoldable pub reject : AppState → ℕ → IpAddr → ValidatorErrorBody → Step ValidateFeaturesResponse
unfolding validation_failure
reject s now ip b = (
  if is_some_and b.probing_detected (λ p. p)
      then record s {
        probing_blocklist = insert ip (now + from_secs (24 * 3600)) s.probing_blocklist;
      }
      else s,
  err (
      validation_failure
        (if is_some_and b.reason (λ r. r == bytes "phrase_content_mismatch")
          then some "phrase_content_mismatch"
          else none)
        b.study_record_status),
)

unfoldable pub read_rejection :
    AppState
    → ℕ
    → Bytes
    → Bytes
    → IpAddr
    → Option ValidatorErrorBody
    → Step ValidateFeaturesResponse
unfolding reject refund_infrastructure_failure
read_rejection s now api_key wallet ip none =
    (refund_infrastructure_failure s api_key wallet, err validation_service_unavailable)
read_rejection s now api_key wallet ip (some b) =
    if is_some_and b.reason (λ r. r == bytes "projection_update_required")
    then (refund_infrastructure_failure s api_key wallet, err projection_update_required)
    else reject s now ip b

module _ (services : Services) where
  -- The risks that the policy scores.
  abbrev pub risks_of : AppState → Call → Bytes → ValidatorSuccessBody → RiskComponents
  risks_of s c wallet b = record {
    biometric = b.risks.biometric_risk;
    tts = b.risks.tts_risk;
    temporal = b.risks.temporal_risk;
    automation = automation_risk services.float c.request.client_signals;
    reputation =
        reputation_risk services.float
          (if s.wallet_reputation_observe then services.reputation wallet else none);
  }

  abbrev pub answer : ℕ → ValidatorSuccessBody → AppState → Unit {0} → Step ValidateFeaturesResponse
  answer remaining b s _ = (
    s,
    ok (record {
      valid = true;
      remaining_quota = some remaining;
      signed_receipt = b.signed_receipt;
      commitment_hex = b.commitment_hex;
      salt_hex = b.salt_hex;
      study_record_status = b.study_record_status;
    }),
  )

  unfoldable pub accept :
      AppState → Call → Bytes → ℕ → ValidatorSuccessBody → Step ValidateFeaturesResponse
  unfolding score_success automation_risk reputation_risk
  accept s c wallet remaining b =
      andthen (score_success services s wallet (risks_of s c wallet b) b.study_record_status)
        (answer remaining b)

  unfoldable pub read_success :
      AppState → Call → Bytes → ℕ → Option ValidatorSuccessBody → Step ValidateFeaturesResponse
  unfolding accept refund_infrastructure_failure
  read_success s c wallet remaining none =
      (refund_infrastructure_failure s (api_key_of c) wallet, err validation_service_unavailable)
  read_success s c wallet remaining (some b) = if b.valid then accept s c wallet remaining b else (
    refund_infrastructure_failure s (api_key_of c) wallet,
    err validation_service_unavailable,
  )

  -- The branches on the status of the response.
  unfoldable pub judge : AppState → ℕ → Call → Bytes → ℕ → Response → Step ValidateFeaturesResponse
  unfolding read_success read_rejection refund_infrastructure_failure is_risk_score
  judge s now c wallet remaining r =
      if not (leb 200 r.status && leb r.status 299)
      then (if not (nat_eq r.status 400) && not (nat_eq r.status 409)
          then (
            refund_infrastructure_failure s (api_key_of c) wallet,
            err validation_service_unavailable,
          )
          else read_rejection s now (api_key_of c) wallet
              (request_ip services.parse_ip c.real_ip_header c.peer) (parsed_rejection r.rejection))
      else read_success s c wallet remaining (parsed_success r.success)

  -- With no validator both budgets are refunded and the request passes.
  unfoldable pub conclude :
      AppState → ℕ → Call → Bytes → ℕ → Option Response → Step ValidateFeaturesResponse
  unfolding judge refund_infrastructure_failure get_remaining
  conclude s now c wallet remaining none =
      let refunded = refund_infrastructure_failure s (api_key_of c) wallet in
      (
        refunded,
        ok (record {
          valid = true;
          remaining_quota = some (get_remaining refunded.tracker (api_key_of c));
          signed_receipt = none;
          commitment_hex = none;
          salt_hex = none;
          study_record_status = if is_some c.request.study then some "disabled" else none;
        }),
      )
  conclude s now c wallet remaining (some r) =
      judge (record s { validations_performed = s.validations_performed + 1 }) now c wallet
        remaining r

  -- The gates before the admission, from the last to the first.
  unfoldable pub screen_signals : Call → AppState → Unit {0} → Step (Unit {0})
  unfolding screen_client_signals
  screen_signals c s _ = (s, screen_client_signals s c.request.client_signals)

  unfoldable pub screen_footprint : ℕ → Call → AppState → Unit {0} → Step (Unit {0})
  unfolding check_cross_wallet_cooldown request_ip screen_signals
  screen_footprint now c s _ =
      andthen
        (check_cross_wallet_cooldown services.hasher s now
          (request_ip services.parse_ip c.real_ip_header c.peer) (user_agent_of c)
          c.request.wallet_id)
        (screen_signals c)

  unfoldable pub screen : AppState → ℕ → Call → Step (Unit {0})
  unfolding check_probing_block request_ip screen_footprint
  screen s now c =
      andthen (check_probing_block s now (request_ip services.parse_ip c.real_ip_header c.peer))
        (screen_footprint now c)

  -- From the response on.
  abbrev pub concluded :
      ℕ → Call → Prepared → ℕ → AppState → Option Response → Step ValidateFeaturesResponse
  concluded now c p remaining s response = conclude s now c p.wallet remaining response

  -- Once admitted, under the guard until the validator answers.
  unfoldable pub validated : ℕ → Call → Prepared → AppState → ℕ → Step ValidateFeaturesResponse
  unfolding forward conclude
  validated now c p s remaining =
      andthen (guarded (api_key_of c) p.wallet (forward services s now c p))
        (concluded now c p remaining)

  -- From the admission on.
  unfoldable pub admitted :
      ℕ → Call → Prepared → AppState → Unit {0} → Step ValidateFeaturesResponse
  unfolding admit_attempt validated
  admitted now c p s _ = andthen (admit_attempt s now (api_key_of c) p.wallet) (validated now c p)

  unfoldable pub validate_features_handler : AppState → ℕ → Call → Step ValidateFeaturesResponse
  unfolding prepare screen admitted
  validate_features_handler s now c = elim (prepare services s now c) [
    | err e ↦ (s, err e)
    | ok p ↦ andthen (screen s now c) (admitted now c p)
  ]
