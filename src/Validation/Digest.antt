-- ===== src/Validation/Digest.antt =====
-- src/validation/authorization.rs: the bytes that a wallet's signature covers. A method of
-- `DigestEncoder` is the bytes that it appends, or the error that it stops with.
pub mod Agree
pub mod Laws
use executor_node.Prelude.{
  ℕ, zero, suc, ◌+◌, ◌/◌, ◌%◌, Bool, true, false, Option, none, some, List, [], ◌∷◌, ◌++◌, Bytes,
  bytes, ltb, nat_eq, if◌then◌else◌, Result, ok, err, length,
}
use executor_node.Error.{AppError, invalid_request, text}
use executor_node.Validation.Float.{is_finite, sign_bit}
use executor_node.Validation.Request.{
  AutomationSignals, CaptureSignals, ClientSignals, ProjectionCompatibilityEvidence,
  StudyCaptureClass, web_mobile, web_desktop, native_ios, native_android, StudyRequestContext,
  ValidateFeaturesRequest,
}

abbrev pub Encoded : Type 0
Encoded = Result AppError Bytes

-- One append after another, `?` included.
infixr 41 ◌▸◌
unfoldable pub ◌▸◌ : Encoded → Encoded → Encoded
err e ▸ q = err e
ok a ▸ ok b = ok (a ++ b)
ok a ▸ err e = err e

abbrev pub digest_domain : Bytes
digest_domain = bytes "entros-validate-request-digest-v1" ++ (0 ∷ [])

unfoldable pub boolean : Bool → Encoded
boolean false = ok (0 ∷ [])
boolean true = ok (1 ∷ [])

-- `to_le_bytes` of a number of so many bytes.
unfoldable pub little_endian : ℕ → ℕ → Bytes
little_endian zero value = []
little_endian (suc n) value = value % 256 ∷ little_endian n (value / 256)

abbrev pub u8 : ℕ → Encoded
u8 value = ok (little_endian 1 value)

abbrev pub u16 : ℕ → Encoded
u16 value = ok (little_endian 2 value)

abbrev pub u32 : ℕ → Encoded
u32 value = ok (little_endian 4 value)

abbrev pub u32_mod : ℕ
u32_mod = 4294967296

unfoldable pub encode_length : ℕ → Encoded
encode_length value =
    if ltb value u32_mod
    then u32 value
    else err (invalid_request (text "Signed request field is too large"))

unfoldable pub string : Bytes → Encoded
unfolding encode_length ◌▸◌
string value = encode_length (length value) ▸ ok value

-- A presence flag, and the value if there is one.
unfoldable pub option : {A : Type 0} → (A → Encoded) → Option A → Encoded
unfolding boolean ◌▸◌
option encode none = boolean false
option encode (some a) = boolean true ▸ encode a

-- The elements of a vector, after its length.
unfoldable pub each : {A : Type 0} → (A → Encoded) → List A → Encoded
unfolding ◌▸◌
each encode [] = ok []
each encode (a ∷ xs) = encode a ▸ each encode xs

unfoldable pub vector : {A : Type 0} → (A → Encoded) → List A → Encoded
unfolding encode_length each ◌▸◌
vector encode xs = encode_length (length xs) ▸ each encode xs

-- `value == 0.0` holds of both zeros.
unfoldable pub signed_bits : ℕ → ℕ
signed_bits value = if nat_eq (value % sign_bit) 0 then 0 else value

unfoldable pub finite_f64 : ℕ → Encoded
unfolding is_finite signed_bits
finite_f64 value =
    if is_finite value
    then ok (little_endian 8 (signed_bits value))
    else err (invalid_request (text "Signed request contains a non-finite number"))

unfoldable pub encode_automation : AutomationSignals → Encoded
unfolding boolean vector string ◌▸◌
encode_automation a = boolean a.webdriver ▸ vector string a.tells

unfoldable pub encode_capture : CaptureSignals → Encoded
unfolding boolean option finite_f64 ◌▸◌
encode_capture c =
    boolean c.virtual_device ▸ option finite_f64 c.flatness ▸ option finite_f64 c.centroid

unfoldable pub encode_signals : ClientSignals → Encoded
unfolding option string encode_automation encode_capture ◌▸◌
encode_signals s =
    u32 s.v
    ▸ option string s.env
    ▸ option encode_automation s.automation
    ▸ option encode_capture s.capture

abbrev pub class_code : StudyCaptureClass → ℕ
class_code web_mobile = 0
class_code web_desktop = 1
class_code native_ios = 2
class_code native_android = 3

unfoldable pub encode_study : StudyRequestContext → Encoded
unfolding string ◌▸◌
encode_study s =
    string s.token
    ▸ string s.record_id
    ▸ u8 (class_code s.capture_class)
    ▸ u16 s.feature_schema_version
    ▸ u16 s.projection_version

unfoldable pub encode_evidence : ProjectionCompatibilityEvidence → Encoded
unfolding vector finite_f64 ◌▸◌
encode_evidence e =
    u16 e.projection_version ▸ u16 e.feature_schema_version ▸ vector finite_f64 e.features

-- What `request_digest` hashes.
unfoldable pub request_bytes : ValidateFeaturesRequest → Encoded
unfolding boolean vector finite_f64 option string encode_signals encode_study encode_evidence ◌▸◌
request_bytes r =
    ok digest_domain
    ▸ boolean r.baseline_reset
    ▸ vector finite_f64 r.features
    ▸ option encode_evidence r.compatibility_evidence
    ▸ option (vector finite_f64) r.f0_contour
    ▸ option (vector finite_f64) r.accel_magnitude
    ▸ option string r.audio_samples_b64
    ▸ option u32 r.audio_sample_rate_hz
    ▸ option encode_signals r.client_signals
    ▸ option encode_study r.study
