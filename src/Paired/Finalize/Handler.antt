-- ===== src/Paired/Finalize/Handler.antt =====
-- src/paired/finalize.rs: `validate_session_handler`. The services are those of a validation; the
-- validation service's reply, and how its JSON parses, are parameters.
use Prim.Native.String.{String}
use executor_node.Prelude.{
  ℕ, ◌+◌, ◌*◌, Bool, true, not, ◌&&◌, ◌||◌, Option, none, some, List, [], ◌∷◌, Bytes, bytes,
  Bytes_eq, ◌==◌, ltb, leb, nat_eq, if◌then◌else◌, ok, err, is_some_and, and_then, unwrap_or, take,
}
use executor_node.Clock.{from_secs}
use executor_node.Error.{
  AppError, validation_failed, paired_rejected, paired_unavailable, paired_technical_failure,
}
use executor_node.Map.{insert}
use executor_node.Auth.Ip.{IpAddr, IpAddr_eq}
use executor_node.Integrator.WalletAttempts.{refund_on_success}
use executor_node.Validation.Composite.{RiskComponents}
use executor_node.Validation.Risk.{automation_risk, reputation_risk}
use executor_node.Validation.Intent.{ProjectionIntent, writes_baseline, receipt_purpose}
use executor_node.Validation.Admission.{
  Step, request_ip, check_probing_block, check_cross_wallet_cooldown, screen_client_signals,
  admit_attempt, refund_infrastructure_failure,
}
use executor_node.Validation.Handler.{
  Services, ValidatorSuccessBody, ValidatorErrorBody, andthen, parsed_success, parsed_rejection,
  identity_intent, score_success, is_risk_score,
}
use executor_node.Validation.Verdict.{guarded}
use executor_node.Paired.Upstream.{Reply, RawResponse, post_json}
use executor_node.Paired.Finalize.{
  ValidateSessionRequest, ValidatorSessionBody, session_body, check_session,
  finalize_response_bytes, max_assurance_tier, paired_verdict_reasons, paired_protocol_reasons,
}
use executor_node.State.{AppState}

-- The headers, the peer and the body.
pub record SessionCall : Type 0 where
  pub api_key_header : Option Bytes
  pub real_ip_header : Option Bytes
  pub user_agent_header : Option Bytes
  pub peer : Option IpAddr
  pub request : ValidateSessionRequest

pub record ValidateSessionResponse : Type 0 where
  pub valid : Bool
  pub remaining_quota : Option ℕ
  pub signed_receipt : Option Bytes
  pub commitment_hex : Option Bytes
  pub salt_hex : Option Bytes
  pub assurance_tier : ℕ

-- How a body parses: as a success and the tier beside it, as a verdict, and as a bare reason. The
-- range of the risk scores is checked afterwards.
pub record Bodies : Type 1 where
  pub Json : Type 0
  pub from_slice : Bytes → Option Json
  pub success : Json → Option ValidatorSuccessBody
  pub assurance_tier : Json → Option ℕ
  pub rejection : Json → Option ValidatorErrorBody
  pub reason : Json → Option Bytes
  pub post : ValidatorSessionBody → Option RawResponse

abbrev pub session_key : SessionCall → Bytes
session_key c = unwrap_or c.api_key_header (bytes "authenticated")

abbrev pub session_agent : SessionCall → Bytes
session_agent c = take 512 (unwrap_or c.user_agent_header [])

-- The reason of the list that a text spells.
unfoldable pub listed_reason : List String → Bytes → Option String
listed_reason [] text_ = none
listed_reason (reason ∷ reasons) text_ =
    let later = listed_reason reasons text_ in if bytes reason == text_ then some reason else later

-- The match on the status and the reason of a reply that renders no verdict.
unfoldable pub refusal : ℕ → Option Bytes → AppError
unfolding listed_reason
refusal status none = paired_unavailable
refusal status (some text_) =
    if nat_eq status 503 && (text_ == bytes "technical_failure")
    then paired_technical_failure
    else if leb 400 status && leb status 499
    then elim (listed_reason paired_protocol_reasons text_) [
      | none ↦ paired_unavailable
      | some reason ↦ paired_rejected status reason
    ]
    else paired_unavailable

-- The error of a verdict, and what is done before it: a probing client is blocked, and a retry that the
-- service asks for while a baseline is written gives the attempt back.
unfoldable pub reject_session :
    AppState → ℕ → IpAddr → Bytes → ProjectionIntent → ValidatorErrorBody → AppState × AppError
unfolding listed_reason refund_on_success
reject_session s now ip wallet intent b =
    let probing = is_some_and b.probing_detected (λ p. p) in
    let blocked : AppState =
      if probing
      then record s {
        probing_blocklist = insert ip (now + from_secs (24 * 3600)) s.probing_blocklist;
      }
      else s in
    let reason = and_then b.reason (listed_reason paired_verdict_reasons) in
    if is_some_and b.reason (λ r. r == bytes "anchor_retry")
    then (if not (writes_baseline intent) || probing then (blocked, validation_failed none) else (
      record blocked { wallet_attempts = refund_on_success blocked.wallet_attempts wallet },
      validation_failed reason,
    ))
    else (blocked, validation_failed reason)

module _ (services : Services) (bodies : Bodies) where
  abbrev pub Finalized : Type 0
  Finalized = Step ValidateSessionResponse

  abbrev pub session_ip : SessionCall → IpAddr
  session_ip c = request_ip services.parse_ip c.real_ip_header c.peer

  -- A refund of both budgets, and an unavailable service.
  abbrev pub unavailable : AppState → SessionCall → Bytes → Finalized
  unavailable s c wallet =
      (refund_infrastructure_failure s (session_key c) wallet, err paired_unavailable)

  abbrev pub session_risks : AppState → SessionCall → Bytes → ValidatorSuccessBody → RiskComponents
  session_risks s c wallet b = record {
    biometric = b.risks.biometric_risk;
    tts = b.risks.tts_risk;
    temporal = b.risks.temporal_risk;
    automation = automation_risk services.float c.request.client_signals;
    reputation =
        reputation_risk services.float
          (if s.wallet_reputation_observe then services.reputation wallet else none);
  }

  abbrev pub session_answer : ℕ → ValidatorSuccessBody → ℕ → AppState → Unit {0} → Finalized
  session_answer remaining b tier s _ = (
    s,
    ok (record {
      valid = true;
      remaining_quota = some remaining;
      signed_receipt = b.signed_receipt;
      commitment_hex = b.commitment_hex;
      salt_hex = b.salt_hex;
      assurance_tier = tier;
    }),
  )

  unfoldable pub accept_session :
      AppState → SessionCall → Bytes → ℕ → ValidatorSuccessBody → ℕ → Finalized
  unfolding score_success automation_risk reputation_risk refund_infrastructure_failure
  accept_session s c wallet remaining b tier =
      if not b.valid || ltb max_assurance_tier tier
      then unavailable s c wallet
      else andthen (score_success services s wallet (session_risks s c wallet b) none)
          (session_answer remaining b tier)

  unfoldable pub read_accepted :
      AppState → SessionCall → Bytes → ℕ → Option ValidatorSuccessBody → Option ℕ → Finalized
  unfolding accept_session refund_infrastructure_failure
  read_accepted s c wallet remaining (some b) (some tier) =
      accept_session s c wallet remaining b tier
  read_accepted s c wallet remaining _ _ = unavailable s c wallet

  -- No verdict was rendered.
  unfoldable pub refuse : AppState → SessionCall → Bytes → ℕ → bodies.Json → Finalized
  unfolding refusal refund_infrastructure_failure
  refuse s c wallet status payload = (
    refund_infrastructure_failure s (session_key c) wallet,
    err (refusal status (bodies.reason payload)),
  )

  unfoldable pub rejected :
      AppState → ℕ → SessionCall → Bytes → ProjectionIntent → ValidatorErrorBody → Finalized
  unfolding reject_session request_ip
  rejected s now c wallet intent b =
      let (s', e) = reject_session s now (session_ip c) wallet intent b in (s', err e)

  unfoldable pub judge_session :
      AppState → ℕ → SessionCall → Bytes → ℕ → ProjectionIntent → ℕ → bodies.Json → Finalized
  unfolding read_accepted refuse rejected is_risk_score
  judge_session s now c wallet remaining intent status payload =
      if leb 200 status && leb status 299
      then read_accepted s c wallet remaining (parsed_success (bodies.success payload))
          (bodies.assurance_tier payload)
      else if nat_eq status 400
      then elim (parsed_rejection (bodies.rejection payload)) [
        | some b ↦ rejected s now c wallet intent b
        | none ↦ refuse s c wallet status payload
      ]
      else refuse s c wallet status payload

  -- From the reply on.
  unfoldable pub conclude_session :
      ℕ → SessionCall → Bytes → ℕ → AppState → ProjectionIntent × Reply bodies.Json → Finalized
  unfolding judge_session refund_infrastructure_failure
  conclude_session now c wallet remaining s (intent, reply) =
      let counted : AppState = record s { validations_performed = s.validations_performed + 1 } in
      elim reply.body [
        | none ↦ unavailable counted c wallet
        | some payload ↦ judge_session counted now c wallet remaining intent reply.status payload
      ]

  unfoldable pub forward_session :
      AppState → SessionCall → Bytes → Step (ProjectionIntent × Reply bodies.Json)
  unfolding identity_intent receipt_purpose session_body post_json request_ip
  forward_session s c wallet =
      elim (identity_intent services wallet c.request.projection_version c.request.baseline_reset) [
        | err e ↦ (s, err e)
        | ok (intent, recent) ↦
            let body =
              session_body c.request (receipt_purpose intent c.request.projection_version) recent
                (session_ip c) (session_agent c) in
            elim (post_json bodies.from_slice s (bodies.post body) finalize_response_bytes) [
              | err fault ↦ (s, err paired_unavailable)
              | ok reply ↦ (s, ok (intent, reply))
            ]
      ]

  -- Once admitted, under the guard until the service answers.
  unfoldable pub session_forwarded : ℕ → SessionCall → Bytes → AppState → ℕ → Finalized
  unfolding forward_session conclude_session refund_infrastructure_failure
  session_forwarded now c wallet s remaining =
      andthen (guarded (session_key c) wallet (forward_session s c wallet))
        (conclude_session now c wallet remaining)

  unfoldable pub session_admitted : ℕ → SessionCall → Bytes → AppState → Unit {0} → Finalized
  unfolding admit_attempt session_forwarded
  session_admitted now c wallet s _ =
      andthen (admit_attempt s now (session_key c) wallet) (session_forwarded now c wallet)

  -- The gates before the admission, from the last to the first.
  unfoldable pub session_signals : SessionCall → AppState → Unit {0} → Step (Unit {0})
  unfolding screen_client_signals
  session_signals c s _ = (s, screen_client_signals s c.request.client_signals)

  unfoldable pub session_footprint : ℕ → SessionCall → AppState → Unit {0} → Step (Unit {0})
  unfolding check_cross_wallet_cooldown request_ip session_signals
  session_footprint now c s _ =
      andthen
        (check_cross_wallet_cooldown services.hasher s now (session_ip c) (session_agent c)
          c.request.wallet_id)
        (session_signals c)

  unfoldable pub session_screen : AppState → ℕ → SessionCall → Step (Unit {0})
  unfolding check_probing_block request_ip session_footprint
  session_screen s now c =
      andthen (check_probing_block s now (session_ip c)) (session_footprint now c)

  unfoldable pub validate_session_handler : AppState → ℕ → SessionCall → Finalized
  unfolding check_session session_screen session_admitted
  validate_session_handler s now c = elim (check_session services.wallets.from_str c.request) [
    | err e ↦ (s, err e)
    | ok wallet ↦ andthen (session_screen s now c) (session_admitted now c wallet)
  ]
