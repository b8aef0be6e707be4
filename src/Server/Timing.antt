-- ===== src/Server/Timing.antt =====
-- src/timing.rs: the least duration of a timed request. A time is in nanoseconds; what runs inside
-- is a function from the time at which it starts to the time at which it ends and its result.
pub mod Laws
use executor_node.Prelude.{
  ℕ, ◌+◌, ◌-◌, Option, none, some, List, [], ◌∷◌, Bytes, ltb, if◌then◌else◌, Result, ok, err,
  is_some_and,
}
use executor_node.Clock.{from_secs}
use executor_node.Error.{AppError, payload_too_large, request_body_timeout}

pub record BodyPolicy : Type 0 where
  pub max_bytes : ℕ
  pub read_deadline : Option ℕ

-- `BodyPolicy::limit`
abbrev pub limit : ℕ → BodyPolicy
limit max_bytes = record { max_bytes = max_bytes; read_deadline = none }

abbrev pub handler_min_duration : ℕ
handler_min_duration = from_secs 4

abbrev pub Timed : Type 0 → Type 0
Timed T = ℕ × T

unfoldable pub min_duration : {T : Type 0} → ℕ → ℕ → (ℕ → Timed T) → Timed T
min_duration least start future =
    let (end, result) = future start in
    let elapsed = end - start in
    if ltb elapsed least then (end + (least - elapsed), result) else (end, result)

-- The errors behind a failed read, from the outermost in.
pub data Cause : Type 0 where
  length_limit timeout other : Cause

unfoldable pub classify_body_error : List Cause → AppError
classify_body_error [] = request_body_timeout
classify_body_error (length_limit ∷ causes) = payload_too_large
classify_body_error (timeout ∷ causes) = request_body_timeout
classify_body_error (other ∷ causes) = classify_body_error causes

-- How the body arrives: how long it takes, and what `to_bytes` makes of it under the limit.
pub record Upload : Type 0 where
  pub takes : ℕ
  pub read : ℕ → Result (List Cause) Bytes

unfoldable pub min_duration_middleware :
    {T : Type 0} → BodyPolicy → ℕ → Upload → (AppError → T) → (Bytes → ℕ → Timed T) → Timed T
unfolding min_duration classify_body_error
min_duration_middleware policy entered upload into_response next =
    if is_some_and policy.read_deadline (λ deadline. ltb deadline upload.takes)
    then elim policy.read_deadline [
      | none ↦ (entered, into_response request_body_timeout)
      | some deadline ↦ (entered + deadline, into_response request_body_timeout)
    ]
    else elim (upload.read policy.max_bytes) [
      | err causes ↦ (entered + upload.takes, into_response (classify_body_error causes))
      | ok bytes_ ↦ min_duration handler_min_duration (entered + upload.takes) (next bytes_)
    ]
