-- ===== src/Validation/Handler.antt =====
-- src/validation/handler.rs: `validate_features_handler` up to the validator's response. What the services answer (the chain, the
-- validator, the reputation read) is a parameter, as are the parsers. The handler runs as one
-- sequence of calls on the shared state.
use Prim.Native.String.{String}
use executor_node.Prelude.{
  ℕ, Bool, true, false, not, ◌&&◌, Option, none, some, List, [], Bytes, bytes, Bytes_eq, nat_eq,
  if◌then◌else◌, Result, ok, err, is_some_and, and_then, unwrap_or, is_none, take,
}
use executor_node.Error.{
  AppError, invalid_request, forbidden, text, text_bytes, paired_required,
  validation_service_unavailable, validation_failed, study_validation_failed,
}
use executor_node.Auth.Ip.{IpAddr, IpAddr_eq}
use executor_node.Auth.CrossWallet.{Hasher}
use executor_node.Challenge.Registry.{
  validate_and_consume_exact, peek_exact_challenge, peek_challenge,
}
use executor_node.Challenge.Lissajous.{LissajousParams}
use executor_node.Integrator.WalletAttempts.{refund_on_success}
use executor_node.Validation.Float.{Arithmetic, is_finite, le, one}
use executor_node.Validation.Composite.{RiskComponents, score, rejects, requires_friction}
use executor_node.Validation.Request.{ValidateFeaturesRequest, validate}
use executor_node.Validation.Authorization.{Wallets, verify_wallet_authorization}
use executor_node.Validation.Intent.{
  ProjectionIntent, writes_baseline, receipt_purpose, derive_projection_intent, recent_timestamps,
  validate_compatibility_evidence_projection_policy, validate_projection_compatibility_evidence,
}
use executor_node.Validation.Risk.{WalletReputation}
use executor_node.Validation.Admission.{Step, request_ip}
use executor_node.State.{AppState}

pub record Risks : Type 0 where
  pub biometric_risk : ℕ
  pub tts_risk : ℕ
  pub temporal_risk : ℕ
  pub audio_realism_risk : ℕ

-- `ValidatorSuccessBody` and `ValidatorErrorBody`. A receipt is opaque.
pub record ValidatorSuccessBody : Type 0 where
  pub valid : Bool
  pub signed_receipt : Option Bytes
  pub commitment_hex : Option Bytes
  pub salt_hex : Option Bytes
  pub risks : Risks
  pub study_record_status : Option String

pub record ValidatorErrorBody : Type 0 where
  pub reason : Option Bytes
  pub risks : Risks
  pub probing_detected : Option Bool
  pub study_record_status : Option String

-- A response, with what its JSON parses as before the risk scores are checked.
pub record Response : Type 0 where
  pub status : ℕ
  pub success : Option ValidatorSuccessBody
  pub rejection : Option ValidatorErrorBody

-- What `validator_request_body` adds to the fields of the request.
pub record ValidatorRequest : Type 0 where
  pub request : ValidateFeaturesRequest
  pub expected_phrase : Option Bytes
  pub projection_version : ℕ
  pub receipt_purpose_ : Option String
  pub request_receipt : Bool
  pub recent : List ℕ
  pub origin_ip : IpAddr
  pub origin_ua : Bytes

pub record ValidateFeaturesResponse : Type 0 where
  pub valid : Bool
  pub remaining_quota : Option ℕ
  pub signed_receipt : Option Bytes
  pub commitment_hex : Option Bytes
  pub salt_hex : Option Bytes
  pub study_record_status : Option String

pub record Services : Type 0 where
  pub wallets : Wallets
  pub float : Arithmetic
  pub hasher : Hasher
  pub parse_ip : Bytes → Option IpAddr
  -- The identity account of a wallet.
  pub identity : Bytes → Result AppError (Option Bytes)
  -- `none`: the request could not be sent.
  pub validator : ValidatorRequest → Option Response
  pub reputation : Bytes → Option WalletReputation

-- The headers, the peer and the body.
pub record Call : Type 0 where
  pub api_key_header : Option Bytes
  pub real_ip_header : Option Bytes
  pub user_agent_header : Option Bytes
  pub peer : Option IpAddr
  pub request : ValidateFeaturesRequest

-- `?` on a step.
abbrev pub andthen : {A B : Type 0} → Step A → (AppState → A → Step B) → Step B
andthen (s, err e) f = (s, err e)
andthen (s, ok a) f = f s a

abbrev pub api_key_of : Call → Bytes
api_key_of c = unwrap_or c.api_key_header (bytes "authenticated")

abbrev pub version_of : Call → ℕ
version_of c = unwrap_or c.request.projection_version 0

abbrev pub user_agent_of : Call → Bytes
user_agent_of c = take 512 (unwrap_or c.user_agent_header [])

-- `deserialize_risk_score`
unfoldable pub is_risk_score : ℕ → Bool
unfolding is_finite le
is_risk_score value = is_finite value && (le 0 value && le value one)

abbrev pub are_scores : Risks → Bool
are_scores r =
    is_risk_score r.biometric_risk
    && (is_risk_score r.tts_risk
        && (is_risk_score r.temporal_risk && is_risk_score r.audio_realism_risk))

-- `response.json()` of each body.
abbrev pub parsed_success : Option ValidatorSuccessBody → Option ValidatorSuccessBody
parsed_success none = none
parsed_success (some b) = if are_scores b.risks then some b else none

abbrev pub parsed_rejection : Option ValidatorErrorBody → Option ValidatorErrorBody
parsed_rejection none = none
parsed_rejection (some b) = if are_scores b.risks then some b else none

unfoldable pub validation_failure : Option String → Option String → AppError
validation_failure reason none = validation_failed reason
validation_failure reason (some status) = study_validation_failed reason (some status)

-- What the checks before the shared state let through: the wallet, the nonce and the challenge.
pub record Prepared : Type 0 where
  pub wallet : Bytes
  pub nonce : Option Bytes
  pub challenge : Option (Bytes × LissajousParams)

module _ (services : Services) where
  -- The challenge that the nonce names, or the wallet's latest.
  unfoldable pub issued_challenge :
      AppState → ℕ → Bytes → Option Bytes → Option (Bytes × LissajousParams)
  unfolding peek_exact_challenge peek_challenge
  issued_challenge s now wallet none = peek_challenge s.challenge_registry now wallet
  issued_challenge s now wallet (some nonce) =
      peek_exact_challenge s.challenge_registry now wallet nonce

  unfoldable pub check_challenge : AppState → ℕ → Bytes → Option Bytes → Result AppError Prepared
  unfolding issued_challenge
  check_challenge s now wallet nonce =
      let challenge = issued_challenge s now wallet nonce in
      if s.challenge_required && is_none challenge
      then err (invalid_request (text "Verification challenge expired. Start verification again."))
      else ok (record { wallet = wallet; nonce = nonce; challenge = challenge })

  unfoldable pub authorize : AppState → ℕ → Call → Bytes → Result AppError Prepared
  unfolding validate verify_wallet_authorization validate_compatibility_evidence_projection_policy
      check_challenge
  authorize s now c wallet =
      if is_some_and c.request.study (λ study. not (validate study))
      then err (invalid_request (text "invalid population-study context"))
      else elim (verify_wallet_authorization services.wallets c.request wallet (version_of c)) [
        | err e ↦ err e
        | ok nonce ↦
            elim (validate_compatibility_evidence_projection_policy (version_of c)
              c.request.compatibility_evidence) [
                | err e ↦ err e
                | ok _ ↦ check_challenge s now wallet nonce
              ]
      ]

  unfoldable pub prepare : AppState → ℕ → Call → Result AppError Prepared
  unfolding authorize
  prepare s now c = elim (services.wallets.from_str c.request.wallet_id) [
    | none ↦ err (invalid_request (text_bytes "invalid wallet_id: {}" c.request.wallet_id))
    | some wallet ↦ authorize s now c wallet
  ]

  -- `identity_intent`
  unfoldable pub identity_intent : Bytes → ℕ → Bool → Result AppError (ProjectionIntent × List ℕ)
  unfolding derive_projection_intent recent_timestamps
  identity_intent wallet projection_version baseline_reset = elim (services.identity wallet) [
    | err e ↦ err e
    | ok account ↦ elim (derive_projection_intent account projection_version baseline_reset) [
      | err e ↦ err e
      | ok intent ↦ ok (intent, recent_timestamps account)
    ]
  ]

  -- The checks between the admission and the nonce.
  unfoldable pub check_projection : Call → Bytes → Result AppError (ProjectionIntent × List ℕ)
  unfolding identity_intent validate_projection_compatibility_evidence
  check_projection c wallet =
      if is_some_and c.request.study (λ study. not (nat_eq study.projection_version (version_of c)))
      then err
          (invalid_request (text "Study projection version does not match the validation request"))
      else elim (identity_intent wallet (version_of c) c.request.baseline_reset) [
        | err e ↦ err e
        | ok (intent, recent) ↦
            elim (validate_projection_compatibility_evidence (version_of c) intent
              c.request.features c.request.compatibility_evidence) [
                | err e ↦ err e
                | ok _ ↦ if writes_baseline intent then err paired_required else ok (intent, recent)
              ]
      ]

  unfoldable pub consume_nonce : AppState → ℕ → Bytes → Option Bytes → Step (Unit {0})
  unfolding validate_and_consume_exact
  consume_nonce s now wallet none = (s, ok tt)
  consume_nonce s now wallet (some nonce) =
      let (registry, answer) = validate_and_consume_exact s.challenge_registry now wallet nonce in
      let consumed : AppState = record s { challenge_registry = registry } in
      elim answer [
        | ok _ ↦ (consumed, ok tt)
        | err _ ↦ (consumed, err (forbidden (text "Wallet authorization challenge failed")))
      ]

  abbrev pub reply : AppState → Option Response → Step (Option Response)
  reply s none = (s, err validation_service_unavailable)
  reply s (some response) = (s, ok (some response))

  -- What the request is forwarded as; `none` if no validator is configured.
  unfoldable pub forwarded :
      AppState → Call → Prepared → ProjectionIntent → List ℕ → Step (Option Response)
  unfolding receipt_purpose request_ip
  forwarded s c p intent recent =
      if not s.has_validator
      then (s, ok none)
      else reply s (
          services.validator (record {
            request = c.request;
            expected_phrase = and_then p.challenge (λ x. some x.0);
            projection_version = version_of c;
            receipt_purpose_ = receipt_purpose intent (version_of c);
            request_receipt = elim intent [ ProjectionIntent.mint ↦ true | _ ↦ false ];
            recent = recent;
            origin_ip = request_ip services.parse_ip c.real_ip_header c.peer;
            origin_ua = user_agent_of c;
          }))

  unfoldable pub forward : AppState → ℕ → Call → Prepared → Step (Option Response)
  unfolding check_projection consume_nonce forwarded
  forward s now c p = elim (check_projection c p.wallet) [
    | err e ↦ (s, err e)
    | ok (intent, recent) ↦
        andthen (consume_nonce s now p.wallet p.nonce) λ s' _. forwarded s' c p intent recent
  ]

  -- `score_success`
  unfoldable pub score_success : AppState → Bytes → RiskComponents → Option String → Step (Unit {0})
  unfolding score rejects requires_friction validation_failure refund_on_success
  score_success s wallet risks study_record_status =
      let composite = score services.float s.scoring_config risks in
      if rejects s.scoring_config composite
      then (s, err (validation_failure none study_record_status))
      else (if requires_friction s.scoring_config composite
          then (s, err (validation_failure (some "captcha_required") study_record_status))
          else (record s { wallet_attempts = refund_on_success s.wallet_attempts wallet }, ok tt))
