-- ===== src/Server/Study.antt =====
-- src/study.rs: the checks of an enrolment, the capacity, and the proxied exchange.
pub mod Laws
use executor_node.Prelude.{
  ℕ, zero, suc, ◌+◌, ◌-◌, ◌*◌, Bool, true, false, not, ◌&&◌, ◌||◌, Option, none, some, List, [],
  Bytes, bytes, Bytes_eq, ltb, leb, nat_eq, if◌then◌else◌, Result, ok, err, length, all,
  is_some_and, ℤ, pos, ltb_ℤ,
}
use executor_node.Error.{
  AppError, invalid_request, study_route_limited, validation_service_unavailable, text,
}
use executor_node.Auth.RateLimit.{Governor, RateLimiter, check_with_retry}
use executor_node.Validation.Request.{is_hexdigit, is_alphanumeric}
use executor_node.Paired.Upstream.{Reply, RawResponse, post_json}
use executor_node.State.{AppState}

abbrev pub study_response_body_bytes : ℕ
study_response_body_bytes = 16 * 1024

pub record StudyEnrolRequest : Type 0 where
  pub wallet_id : Bytes
  pub signature_hex : Bytes
  pub authorization_id : Bytes
  pub signed_at : ℤ
  pub consent_version : Bytes
  pub consent_hash_hex : Bytes
  pub enrolment_id : Bytes
  pub accepted : Bool

-- What is sent: nothing for the definition, and the fields of the request for an enrolment.
pub data StudyBody : Type 0 where
  definition : StudyBody
  enrol : StudyEnrolRequest → StudyBody

-- The response: the status and the service's body, or the body for an answer that cannot be read.
pub data StudyContent (Json : Type 0) : Type 0 where
  passed : Json → StudyContent Json
  unreadable : StudyContent Json

pub record StudyResponse (Json : Type 0) : Type 0 where
  pub status : ℕ
  pub content : StudyContent Json
  pub retry_after : Option ℕ

-- The bytes 45, 95 and 46 besides letters and digits.
abbrev is_version_byte : ℕ → Bool
is_version_byte byte =
    is_alphanumeric byte || (nat_eq byte 45 || (nat_eq byte 95 || nat_eq byte 46))

abbrev is_hex_of : ℕ → Bytes → Bool
is_hex_of size value = nat_eq (length value) size && all is_hexdigit value

abbrev is_consent_version : Bytes → Bool
is_consent_version version =
    not (nat_eq (length version) 0) && (leb (length version) 64 && all is_version_byte version)

-- The base-58 decoder is the `bs58` crate's.
module _ (decode : Bytes → Option Bytes) where
  unfoldable pub valid_wallet_id : Bytes → Bool
  valid_wallet_id wallet_id =
      (leb 32 (length wallet_id) && leb (length wallet_id) 44)
      && is_some_and (decode wallet_id) (λ key. nat_eq (length key) 32)

  -- The test that the handler refuses by, in the source's order.
  unfoldable pub is_valid_enrolment : StudyEnrolRequest → Bool
  unfolding valid_wallet_id
  is_valid_enrolment r =
      valid_wallet_id r.wallet_id
      && (is_hex_of 128 r.signature_hex
          && (is_hex_of 32 r.authorization_id
              && (ltb_ℤ (pos 0) r.signed_at
                  && (is_consent_version r.consent_version
                      && (is_hex_of 64 r.consent_hash_hex
                          && (is_hex_of 32 r.enrolment_id && r.accepted))))))

-- The permits that are free, and the limiter of the study service.
pub record StudyGate (g : Governor) : Type 0 where
  pub study_concurrency : ℕ
  pub study_service_rate_limiter : RateLimiter g

-- The permit that is taken comes back when the handler returns, or when the limiter refuses.
unfoldable pub acquire_study_capacity :
    (g : Governor) → StudyGate g → ℕ → StudyGate g × Result AppError (Unit {0})
unfolding check_with_retry
acquire_study_capacity g s now =
    if nat_eq s.study_concurrency 0
    then (s, err (study_route_limited 1))
    else let (limiter, answer) =
        check_with_retry g s.study_service_rate_limiter now (bytes "study-service") in
      let checked : StudyGate g = record s { study_service_rate_limiter = limiter } in
      elim answer [
        | err retry_after_secs ↦ (checked, err (study_route_limited retry_after_secs))
        | ok _ ↦ (record checked { study_concurrency = s.study_concurrency - 1 }, ok tt)
      ]

-- The permit's drop.
abbrev pub released : (g : Governor) → StudyGate g → StudyGate g
released g s = record s { study_concurrency = s.study_concurrency + 1 }

module _ {Json : Type 0} (from_slice : Bytes → Option Json)
    (post : StudyBody → Option RawResponse) where
  unfoldable pub proxy_study_request : AppState → StudyBody → Result AppError (StudyResponse Json)
  unfolding post_json
  proxy_study_request app body =
      elim (post_json from_slice app (post body) study_response_body_bytes) [
        | err fault ↦ err validation_service_unavailable
        | ok reply ↦ elim reply.body [
          | none ↦ ok (record { status = 502; content = unreadable; retry_after = none })
          | some content ↦ ok (record {
            status = reply.status;
            content = passed content;
            retry_after = if nat_eq reply.status 429 then reply.retry_after else none;
          })
        ]
      ]

  -- From the capacity on, with the permit given back at the end.
  unfoldable pub with_capacity :
      (g : Governor)
      → StudyGate g
      → ℕ
      → AppState
      → StudyBody
      → StudyGate g × Result AppError (StudyResponse Json)
  unfolding acquire_study_capacity proxy_study_request
  with_capacity g s now app body =
      let (taken, answer) = acquire_study_capacity g s now in
      elim answer [
        | err e ↦ (taken, err e)
        | ok _ ↦ (released g taken, proxy_study_request app body)
      ]

  unfoldable pub study_definition_handler :
      (g : Governor)
      → StudyGate g
      → ℕ
      → AppState
      → StudyGate g × Result AppError (StudyResponse Json)
  unfolding with_capacity
  study_definition_handler g s now app = with_capacity g s now app definition

  unfoldable pub study_enrol_handler :
      (g : Governor)
      → (Bytes → Option Bytes)
      → StudyGate g
      → ℕ
      → AppState
      → StudyEnrolRequest
      → StudyGate g × Result AppError (StudyResponse Json)
  unfolding is_valid_enrolment with_capacity
  study_enrol_handler g decode s now app request =
      if not (is_valid_enrolment decode request)
      then (s, err (invalid_request (text "invalid study enrolment")))
      else with_capacity g s now app (enrol request)
