-- ===== src/Paired/Upstream.antt =====
-- src/upstream.rs: JSON requests to the validation service. JSON, and what the service answers,
-- are parameters.
pub mod Laws
use executor_node.Prelude.{
  ℕ, ◌+◌, min, Bool, true, false, not, Option, none, some, List, [], ◌∷◌, ◌++◌, Bytes, ltb, nat_eq,
  if◌then◌else◌, Result, ok, err, length, is_some_and, and_then,
}
use executor_node.Clock.{u64_max}
use executor_node.Text.{parse_u64}
use executor_node.State.{AppState}

abbrev pub max_retry_after_secs : ℕ
max_retry_after_secs = 300

pub record Reply (Json : Type 0) : Type 0 where
  pub status : ℕ
  -- In seconds.
  pub retry_after : Option ℕ
  pub body : Option Json

pub data UpstreamFault : Type 0 where
  not_configured unreachable : UpstreamFault

-- A response as it arrives. A chunk that is `none` is a read that fails.
pub record RawResponse : Type 0 where
  pub status : ℕ
  pub retry_after_header : Option Bytes
  pub content_length : Option ℕ
  pub chunks : List (Option Bytes)

unfoldable pub valid_retry_after : Bytes → Option ℕ
unfolding parse_u64
valid_retry_after value = elim (parse_u64 value) [
  | none ↦ none
  | some seconds ↦ if nat_eq seconds 0 then none else some (min seconds max_retry_after_secs)
]

-- The loop over the chunks.
unfoldable pub read_chunks : ℕ → Bytes → List (Option Bytes) → Option Bytes
read_chunks limit body [] = some body
read_chunks limit body (none ∷ rest) = none
read_chunks limit body (some chunk ∷ rest) =
    let more = read_chunks limit (body ++ chunk) rest in
    if ltb limit (min (length body + length chunk) u64_max) then none else more

-- The bytes that `read_bounded_json` parses.
unfoldable pub read_bounded : RawResponse → ℕ → Option Bytes
unfolding read_chunks
read_bounded response limit =
    if is_some_and response.content_length (λ l. ltb limit l)
    then none
    else read_chunks limit [] response.chunks

module _ {Json : Type 0} (from_slice : Bytes → Option Json) where
  abbrev pub read_bounded_json : RawResponse → ℕ → Option Json
  read_bounded_json response limit = and_then (read_bounded response limit) from_slice

  -- `none`: the request could not be sent.
  unfoldable pub post_json : AppState → Option RawResponse → ℕ → Result UpstreamFault (Reply Json)
  unfolding valid_retry_after read_bounded
  post_json s answer reply_limit = if not s.has_validator then err not_configured else elim answer [
    | none ↦ err unreachable
    | some response ↦ ok (record {
      status = response.status;
      retry_after = and_then response.retry_after_header valid_retry_after;
      body = read_bounded_json response reply_limit;
    })
  ]
