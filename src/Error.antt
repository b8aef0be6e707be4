-- ===== src/Error.antt =====
-- src/error.rs: the application's error type and the response that each error becomes.
-- A message keeps the arguments of its format unrendered; a status is its HTTP code.
pub mod Status
use Prim.Native.String.{String}
use executor_node.Prelude.{ℕ, Bytes, Option, none, some, Bool, true, false}

pub data Message : Type 0 where
  text : String → Message
  text_nat : String → ℕ → Message
  text_nats : String → ℕ → ℕ → Message
  text_bytes : String → Bytes → Message

pub data AppError : Type 0 where
  invalid_request : Message → AppError
  payload_too_large request_body_timeout unauthorized rate_limited : AppError
  study_route_limited ip_rate_limited wallet_rate_limited : (retry_after_secs : ℕ) → AppError
  insufficient_quota solana_rpc_unavailable transaction_submission_failed : AppError
  forbidden : Message → AppError
  attestation_service_unavailable : AppError
  validation_failed : (reason : Option String) → AppError
  study_validation_failed : (reason study_record_status : Option String) → AppError
  validation_service_unavailable projection_update_required paired_required : AppError
  cross_wallet_cooldown_active : (retry_after_secs : ℕ) → AppError
  paired_rejected : (status : ℕ) (reason : String) → AppError
  paired_technical_failure paired_unavailable paired_busy : AppError

-- What `into_response` puts on the wire, before padding: the status, the JSON fields, and the
-- `Retry-After` header.
pub record ErrorResponse : Type 0 where
  pub status : ℕ
  pub error : Message
  pub reason : Option String
  pub retry_after : Option ℕ
  pub study_record_status : Option String
  pub retry_after_header : Option ℕ

-- The `match` on the status and the message. The errors that return early do not reach it.
unfoldable pub status_message : AppError → ℕ × Message
status_message (invalid_request m) = (400, m)
status_message payload_too_large = (413, text "Verification data was too large to submit.")
status_message request_body_timeout =
    (408, text "The connection stalled while sending your verification. Please try again.")
status_message unauthorized = (401, text "Unauthorized")
status_message rate_limited = (429, text "Rate limited")
status_message (study_route_limited n) =
    (429, text "The study service is busy. Please wait before trying again.")
status_message (ip_rate_limited n) =
    (429, text "Too many requests from your network. Please wait before trying again.")
status_message (wallet_rate_limited n) =
    (429, text "Too many attempts. Please wait before trying again.")
status_message insufficient_quota = (402, text "Insufficient verification quota")
status_message solana_rpc_unavailable =
    (502, text "Solana network temporarily unavailable. Please try again.")
status_message transaction_submission_failed =
    (500, text "Verification could not be completed. Please try again.")
status_message (forbidden m) = (403, m)
status_message attestation_service_unavailable =
    (500, text "Attestation processing failed. Please try again.")
status_message (validation_failed r) = (400, text "Verification failed")
status_message (study_validation_failed r s) = (400, text "Verification failed")
status_message validation_service_unavailable =
    (502, text "Validation service temporarily unavailable. Please try again.")
status_message projection_update_required =
    (409, text "This verification client must update before continuing.")
status_message paired_required = (409, text "Use paired capture to set or replace your baseline.")
status_message (cross_wallet_cooldown_active n) = (
  429,
  text
      "A different wallet was recently verified from this device. Please wait before trying again.",
)
status_message (paired_rejected status reason) =
    (status, text "The verification session could not continue.")
status_message paired_technical_failure =
    (503, text "Verification could not be completed. Please start again.")
status_message paired_unavailable =
    (503, text "Validation service temporarily unavailable. Please try again.")
status_message paired_busy = (503, text "The verification service is busy. Please try again.")

-- The `reason` of the JSON body.
unfoldable pub wire_reason : AppError → Option String
wire_reason (study_route_limited n) = some "study_service_busy"
wire_reason (ip_rate_limited n) = some "ip_rate_limited"
wire_reason (wallet_rate_limited n) = some "rate_limited"
wire_reason (cross_wallet_cooldown_active n) = some "cross_wallet_cooldown"
wire_reason (paired_rejected status reason) = some reason
wire_reason paired_busy = some "session_busy"
wire_reason (validation_failed reason) = reason
wire_reason projection_update_required = some "projection_update_required"
wire_reason paired_required = some "paired_required"
wire_reason rate_limited = some "rate_limited"
wire_reason (study_validation_failed reason status) = reason
wire_reason payload_too_large = some "payload_too_large"
wire_reason request_body_timeout = some "validation_timeout"
wire_reason paired_technical_failure = some "technical_failure"
wire_reason paired_unavailable = some "validation_unavailable"
wire_reason _ = none

-- The `retry_after` of the JSON body.
unfoldable pub wire_retry_after : AppError → Option ℕ
wire_retry_after (study_route_limited n) = some n
wire_retry_after (ip_rate_limited n) = some n
wire_retry_after (wallet_rate_limited n) = some n
wire_retry_after (cross_wallet_cooldown_active n) = some n
wire_retry_after paired_busy = some 1
wire_retry_after _ = none

-- The `Retry-After` header, which only the errors that return early insert.
unfoldable pub retry_after_header : AppError → Option ℕ
retry_after_header (cross_wallet_cooldown_active n) = some n
retry_after_header (study_route_limited n) = some n
retry_after_header (ip_rate_limited n) = some n
retry_after_header paired_busy = some 1
retry_after_header _ = none

abbrev wire_study_status : AppError → Option String
wire_study_status (study_validation_failed reason status) = status
wire_study_status _ = none

pub into_response : AppError → ErrorResponse
unfolding status_message wire_reason wire_retry_after retry_after_header
into_response e = record {
  status = (status_message e).0;
  error = (status_message e).1;
  reason = wire_reason e;
  retry_after = wire_retry_after e;
  study_record_status = wire_study_status e;
  retry_after_header = retry_after_header e;
}
