-- ===== src/Validation/Request.antt =====
-- src/validation/handler.rs, src/validation/authorization.rs: the request of `/validate-features`
-- and its parts. A text is its UTF-8 bytes; a floating-point number is its 64 bits. The fields
-- that the handler only forwards (`capture_timing`) or never reads are left out.
use executor_node.Prelude.{ℕ, Bool, ◌&&◌, ◌||◌, Option, List, Bytes, leb, nat_eq, length, all}

pub record WalletAuthorization : Type 0 where
  pub nonce : Bytes
  pub signature_hex : Bytes

pub record ProjectionCompatibilityEvidence : Type 0 where
  pub projection_version : ℕ
  pub feature_schema_version : ℕ
  pub features : List ℕ

pub record CaptureSignals : Type 0 where
  pub virtual_device : Bool
  pub voice_isolation_applied : Option Bool
  pub flatness : Option ℕ
  pub centroid : Option ℕ

pub record AutomationSignals : Type 0 where
  pub webdriver : Bool
  pub tells : List Bytes

pub record ClientSignals : Type 0 where
  pub v : ℕ
  pub env : Option Bytes
  pub automation : Option AutomationSignals
  pub capture : Option CaptureSignals

pub data StudyCaptureClass : Type 0 where
  web_mobile web_desktop native_ios native_android : StudyCaptureClass

pub record StudyRequestContext : Type 0 where
  pub token : Bytes
  pub record_id : Bytes
  pub capture_class : StudyCaptureClass
  pub feature_schema_version : ℕ
  pub projection_version : ℕ

pub record ValidateFeaturesRequest : Type 0 where
  pub features : List ℕ
  pub wallet_id : Bytes
  pub projection_version : Option ℕ
  pub compatibility_evidence : Option ProjectionCompatibilityEvidence
  pub wallet_authorization : Option WalletAuthorization
  pub baseline_reset : Bool
  pub f0_contour : Option (List ℕ)
  pub accel_magnitude : Option (List ℕ)
  pub audio_samples_b64 : Option Bytes
  pub audio_sample_rate_hz : Option ℕ
  pub client_signals : Option ClientSignals
  pub study : Option StudyRequestContext

-- `is_ascii_digit`, `is_ascii_hexdigit`, `is_ascii_alphanumeric`
abbrev pub is_digit : ℕ → Bool
is_digit c = leb 48 c && leb c 57

abbrev pub is_hexdigit : ℕ → Bool
is_hexdigit c = is_digit c || ((leb 65 c && leb c 70) || (leb 97 c && leb c 102))

abbrev pub is_alphanumeric : ℕ → Bool
is_alphanumeric c = is_digit c || ((leb 65 c && leb c 90) || (leb 97 c && leb c 122))

-- `StudyRequestContext::validate`
unfoldable pub validate : StudyRequestContext → Bool
validate s =
    nat_eq (length s.token) 43
    && (all (λ c. is_alphanumeric c || (nat_eq c 45 || nat_eq c 95)) s.token
        && (nat_eq (length s.record_id) 32 && all is_hexdigit s.record_id))
