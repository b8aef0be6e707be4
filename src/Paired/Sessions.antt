-- ===== src/Paired/Sessions.antt =====
-- src/paired/mod.rs: the untimed calls of a session, which forward to the validation service.
pub mod Laws
use Prim.Native.String.{String}
use executor_node.Prelude.{
  ℕ, ◌*◌, Bool, true, false, not, ◌&&◌, Option, none, some, List, [], ◌∷◌, Bytes, bytes, Bytes_eq,
  ◌==◌, nat_eq, leb, if◌then◌else◌, Result, ok, err, is_some_and,
}
use executor_node.Error.{
  AppError, paired_rejected, payload_too_large, paired_unavailable, wallet_rate_limited,
}
use executor_node.Auth.Ip.{IpAddr}
use executor_node.Integrator.WalletAttempts.{check}
use executor_node.Validation.Admission.{Step, request_ip, check_probing_block}
use executor_node.Validation.Authorization.{lower_hex}
use executor_node.Validation.Handler.{andthen}
use executor_node.Paired.Upstream.{Reply, UpstreamFault, RawResponse, post_json}
use executor_node.State.{AppState}

abbrev pub open_body_bytes : ℕ
open_body_bytes = 4 * 1024

abbrev pub commit_body_bytes : ℕ
commit_body_bytes = 8 * 1024

abbrev pub session_body_bytes : ℕ
session_body_bytes = 2 * 1048576

abbrev pub round_response_bytes : ℕ
round_response_bytes = 16 * 1024

abbrev pub invalid_request : AppError
invalid_request = paired_rejected 400 "invalid_request"

-- `PairedJson::from_request`: what a body that does not parse answers, by the status of the
-- extractor's error.
unfoldable pub from_request : {A : Type 0} → Result ℕ A → Result AppError A
from_request (ok value) = ok value
from_request (err status) = if nat_eq status 413 then err payload_too_large else err invalid_request

-- The headers and the peer.
pub record Origin : Type 0 where
  pub real_ip_header : Option Bytes
  pub user_agent_header : Option Bytes
  pub peer : Option IpAddr

pub record OpenRequest : Type 0 where
  pub protocol_version : Option ℕ
  pub wallet : Bytes
  pub tier : Bytes

pub record CommitRequest : Type 0 where
  pub wallet_id : Bytes
  pub session_id : Bytes
  pub round_index : ℕ
  pub round_nonce : Bytes
  pub challenge_digest : Bytes
  pub previous_commitment : Bytes
  pub audio_format : Bytes
  pub audio_byte_length : ℕ
  pub audio_digest : Bytes
  pub path_point_count : ℕ
  pub path_digest : Bytes
  pub commitment : Bytes
  pub idempotency_key : Bytes

pub record CueRequest : Type 0 where
  pub wallet_id : Bytes
  pub session_id : Bytes
  pub round_index : ℕ
  pub round_nonce : Bytes
  pub challenge_digest : Bytes

pub record UpstreamOpen : Type 0 where
  pub protocol_version : ℕ
  pub wallet_id : Bytes
  pub challenge_nonce : Bytes
  pub origin_ip : IpAddr

-- What is forwarded: the path and the body.
pub data Forwarded : Type 0 where
  sessions : UpstreamOpen → Forwarded
  commit : CommitRequest → Forwarded
  cue : CueRequest → Forwarded

-- What the client sees: a bare status, or the service's own status and body, never stored.
pub data PairedResponse (Json : Type 0) : Type 0 where
  not_found : PairedResponse Json
  passed_on : (status : ℕ) (retry_after : Option ℕ) (body : Json) → PairedResponse Json

unfoldable pub is_server_error : ℕ → Bool
is_server_error status = leb 500 status && leb status 599

-- Whether a wallet is off the list of admitted wallets.
unfoldable pub contains : Bytes → List Bytes → Bool
contains wallet [] = false
contains wallet (w ∷ wallets) = if w == wallet then true else contains wallet wallets

abbrev pub is_unlisted : AppState → Bytes → Bool
is_unlisted s wallet = is_some_and s.paired_wallets (λ wallets. not (contains wallet wallets))

-- The parsers and the validation service.
pub record Relay : Type 1 where
  pub Json : Type 0
  pub from_slice : Bytes → Option Json
  pub from_str : Bytes → Option Bytes
  pub parse_ip : Bytes → Option IpAddr
  pub post : Forwarded → Option RawResponse

module _ (services : Relay) where
  abbrev pub Answer : Type 0
  Answer = Step (PairedResponse services.Json)

  -- A reply with a body that is no fault of the service.
  unfoldable pub pass_on : AppState → Reply services.Json → Answer
  unfolding is_server_error
  pass_on s reply = elim reply.body [
    | none ↦ (s, err paired_unavailable)
    | some body ↦
        if not (is_server_error reply.status)
        then (s, ok (passed_on reply.status reply.retry_after body))
        else (s, err paired_unavailable)
  ]

  unfoldable pub relay : Forwarded → AppState → Unit {0} → Answer
  unfolding post_json pass_on
  relay forwarded s _ =
      elim (post_json services.from_slice s (services.post forwarded) round_response_bytes) [
        | err fault ↦ (s, err paired_unavailable)
        | ok reply ↦ pass_on s reply
      ]

  -- The wallet's attempts are read, not spent.
  unfoldable pub check_attempts : ℕ → Bytes → AppState → Unit {0} → Step (Unit {0})
  unfolding check
  check_attempts now wallet s _ = elim (check s.wallet_attempts now wallet) [
    | err retry_after_secs ↦ (s, err (wallet_rate_limited retry_after_secs))
    | ok _ ↦ (s, ok tt)
  ]

  unfoldable pub open_admitted : AppState → ℕ → Bytes → Bytes → Origin → Bytes → Answer
  unfolding check_probing_block request_ip check_attempts relay lower_hex
  open_admitted s now nonce wallet o wallet_text =
      let ip = request_ip services.parse_ip o.real_ip_header o.peer in
      andthen (andthen (check_probing_block s now ip) (check_attempts now wallet)) (
        relay (
          sessions (record {
            protocol_version = 2;
            wallet_id = wallet_text;
            challenge_nonce = lower_hex nonce;
            origin_ip = ip;
          })))

  -- The nonce is 32 random bytes.
  unfoldable pub open_handler : AppState → ℕ → Bytes → Origin → OpenRequest → Answer
  unfolding contains open_admitted
  open_handler s now nonce o request = elim (services.from_str request.wallet) [
    | none ↦ (s, err invalid_request)
    | some wallet ↦
        if is_unlisted s wallet
        then (s, ok not_found)
        else if not (is_some_and request.protocol_version (λ v. nat_eq v 2))
        then (s, err (paired_rejected 400 "protocol_unsupported"))
        else if not (request.tier == bytes "trace")
        then (s, err invalid_request)
        else open_admitted s now nonce wallet o request.wallet
  ]

  abbrev blocked_or : AppState → ℕ → Origin → Forwarded → Answer
  blocked_or s now o forwarded =
      andthen (check_probing_block s now (request_ip services.parse_ip o.real_ip_header o.peer))
        (relay forwarded)

  unfoldable pub commit_handler : AppState → ℕ → Origin → CommitRequest → Answer
  unfolding check_probing_block request_ip relay
  commit_handler s now o request = elim (services.from_str request.wallet_id) [
    | none ↦ (s, err invalid_request)
    | some wallet ↦ blocked_or s now o (commit request)
  ]

  unfoldable pub cue_handler : AppState → ℕ → Origin → CueRequest → Answer
  unfolding contains check_probing_block request_ip relay
  cue_handler s now o request = elim (services.from_str request.wallet_id) [
    | none ↦ (s, err invalid_request)
    | some wallet ↦
        if is_unlisted s wallet then (s, ok not_found) else blocked_or s now o (cue request)
  ]
