-- ===== src/Paired/Finalize.antt =====
-- src/paired/finalize.rs: the request of `/validate-session` and what is checked of it before any
-- shared state.
pub mod Handler
pub mod Laws
pub mod Untouched
pub mod Kept
pub mod Reasons
pub mod Accepts
use Prim.Native.String.{String}
use executor_node.Prelude.{
  ℕ, ◌+◌, ◌*◌, ◌/◌, ◌-◌, Bool, true, false, not, ◌&&◌, Option, none, some, List, [], ◌∷◌, Bytes,
  bytes, Bytes_eq, ◌==◌, leb, nat_eq, if◌then◌else◌, Result, ok, err, length, all, is_none_or,
}
use executor_node.Error.{AppError, paired_rejected}
use executor_node.Auth.Ip.{IpAddr}
use executor_node.Validation.Request.{ClientSignals}
use executor_node.Paired.Sessions.{invalid_request}

abbrev pub paired_projection_version : ℕ
paired_projection_version = 1

abbrev pub rounds : ℕ
rounds = 3

abbrev pub feature_vector_width : ℕ
feature_vector_width = 308

-- `div_ceil(3) * 4`
abbrev pub max_segment_audio_b64 : ℕ
max_segment_audio_b64 = (192000 * 2 + 3 - 1) / 3 * 4

abbrev pub max_coarse_path_hex : ℕ
max_coarse_path_hex = (3 + 64 * 4) * 2

abbrev pub max_contour_frames : ℕ
max_contour_frames = 4096

abbrev pub max_attestation_token : ℕ
max_attestation_token = 16 * 1024

abbrev pub finalize_response_bytes : ℕ
finalize_response_bytes = 16 * 1024

abbrev pub max_assurance_tier : ℕ
max_assurance_tier = 2

abbrev pub paired_verdict_reasons : List String
paired_verdict_reasons =
    "phrase_content_mismatch" ∷ "trace_incomplete" ∷ "audio_evidence_insufficient" ∷ "anchor_retry"
    ∷ []

abbrev pub paired_protocol_reasons : List String
paired_protocol_reasons =
    "protocol_unsupported" ∷ "session_unknown" ∷ "session_expired" ∷ "session_superseded"
    ∷ "subject_mismatch" ∷ "session_not_ready" ∷ "finalize_in_progress" ∷ "session_consumed"
    ∷ "final_digest_mismatch" ∷ "evidence_digest_mismatch" ∷ "evidence_length_mismatch"
    ∷ "audio_format_invalid" ∷ "projection_not_supported" ∷ "invalid_request" ∷ []

pub record SegmentPayload : Type 0 where
  pub round_index : ℕ
  pub audio_b64 : Bytes
  pub coarse_path_hex : Bytes

pub record AttestationPayload : Type 0 where
  pub platform : Bytes
  pub token : Bytes

-- The timing of the capture is only forwarded, as the text that it is.
pub record ValidateSessionRequest : Type 0 where
  pub capture_protocol : Bytes
  pub wallet_id : Bytes
  pub projection_version : ℕ
  pub session_id : Bytes
  pub final_digest : Bytes
  pub segments : List SegmentPayload
  pub features : List ℕ
  pub f0_contour : Option (List ℕ)
  pub accel_magnitude : Option (List ℕ)
  pub capture_timing : Option Bytes
  pub client_signals : Option ClientSignals
  pub baseline_reset : Bool
  pub attestation : Option AttestationPayload

abbrev segment_ok : SegmentPayload → Bool
segment_ok segment =
    leb (length segment.audio_b64) max_segment_audio_b64
    && leb (length segment.coarse_path_hex) max_coarse_path_hex

abbrev contour_ok : Option (List ℕ) → Bool
contour_ok contour = is_none_or contour (λ frames. leb (length frames) max_contour_frames)

abbrev attestation_ok : AttestationPayload → Bool
attestation_ok attestation =
    leb (length attestation.platform) 32 && leb (length attestation.token) max_attestation_token

unfoldable pub within_bounds : ValidateSessionRequest → Bool
within_bounds r =
    r.capture_protocol == bytes "paired"
    && (nat_eq (length r.session_id) 32
        && (nat_eq (length r.final_digest) 64
            && (nat_eq (length r.features) feature_vector_width
                && (nat_eq (length r.segments) rounds
                    && (all segment_ok r.segments
                        && (contour_ok r.f0_contour
                            && (contour_ok r.accel_magnitude
                                && is_none_or r.attestation attestation_ok)))))))

-- The body that the validation service receives, besides the fields of the request.
pub record ValidatorSessionBody : Type 0 where
  pub capture_protocol : Bytes
  pub wallet_id : Bytes
  pub projection_version : ℕ
  pub session_id : Bytes
  pub final_digest : Bytes
  pub segments : List SegmentPayload
  pub features : List ℕ
  pub f0_contour : Option (List ℕ)
  pub accel_magnitude : Option (List ℕ)
  pub capture_timing : Option Bytes
  pub receipt_purpose : Option String
  pub recent_timestamps : List ℕ
  pub origin_ip : IpAddr
  pub origin_ua : Bytes
  pub attestation : Option AttestationPayload

unfoldable pub session_body :
    ValidateSessionRequest → Option String → List ℕ → IpAddr → Bytes → ValidatorSessionBody
session_body request purpose timestamps ip user_agent = record {
  capture_protocol = request.capture_protocol;
  wallet_id = request.wallet_id;
  projection_version = request.projection_version;
  session_id = request.session_id;
  final_digest = request.final_digest;
  segments = request.segments;
  features = request.features;
  f0_contour = request.f0_contour;
  accel_magnitude = request.accel_magnitude;
  capture_timing = request.capture_timing;
  receipt_purpose = purpose;
  recent_timestamps = timestamps;
  origin_ip = ip;
  origin_ua = user_agent;
  attestation = request.attestation;
}

-- The checks of the request alone: the wallet that it names, if it passes.
unfoldable pub check_session :
    (Bytes → Option Bytes) → ValidateSessionRequest → Result AppError Bytes
unfolding within_bounds
check_session from_str request =
    if not (nat_eq request.projection_version paired_projection_version)
    then err (paired_rejected 400 "projection_not_supported")
    else elim (from_str request.wallet_id) [
      | none ↦ err invalid_request
      | some wallet ↦ if not (within_bounds request) then err invalid_request else ok wallet
    ]
