-- ===== src/Validation/Digest/Laws.antt =====
-- What the signed bytes of src/validation/authorization.rs determine.
use mathlib.Core.Option.{map as option_map}
use executor_node.Prelude.{
  ◌<◌, ℕ, ◌%◌, ◌≡◌, refl, Bool, Option, List, [], Bytes, ok, arith, map, Bool-cases, inl, inr,
}
use executor_node.Clock.{u64_mod}
use executor_node.Validation.Float.{is_finite}
use executor_node.Validation.Request.{
  AutomationSignals, CaptureSignals, ClientSignals, ProjectionCompatibilityEvidence,
  StudyCaptureClass, web_mobile, web_desktop, native_ios, native_android, StudyRequestContext,
  ValidateFeaturesRequest,
}
use executor_node.Validation.Digest.{
  string, vector, u8, u32, u32_mod, class_code, signed_bits, finite_f64, encode_automation,
  encode_capture, encode_signals, encode_study, encode_evidence, request_bytes, digest_domain,
}
use executor_node.Validation.Digest.Agree.{
  Agree, weaken, seq, boolean_agree, u8_agree, u16_agree, u32_agree, u64_agree, string_agree,
  option_agree, vector_agree, none_agree, raw_agree, swap_agree,
}

-- A signed number: its bits, with the two zeros the same.
abbrev number : ℕ → ℕ
number x = signed_bits x % u64_mod

-- What is signed of each part of a request. A word is taken up to its size.
abbrev evidence_part : ProjectionCompatibilityEvidence → ℕ × ℕ × List ℕ
evidence_part e =
    (e.projection_version % 65536, e.feature_schema_version % 65536, map number e.features)

abbrev automation_part : AutomationSignals → Bool × List Bytes
automation_part a = (a.webdriver, map (λ t. t) a.tells)

abbrev capture_part : CaptureSignals → Bool × Option ℕ × Option ℕ
capture_part c = (c.virtual_device, option_map number c.flatness, option_map number c.centroid)

abbrev signals_part :
    ClientSignals
    → ℕ × Option Bytes × Option (Bool × List Bytes) × Option (Bool × Option ℕ × Option ℕ)
signals_part s = (
  s.v % u32_mod,
  option_map (λ t. t) s.env,
  option_map automation_part s.automation,
  option_map capture_part s.capture,
)

abbrev study_part : StudyRequestContext → Bytes × Bytes × ℕ × ℕ × ℕ
study_part s = (
  s.token,
  s.record_id,
  class_code s.capture_class,
  s.feature_schema_version % 65536,
  s.projection_version % 65536,
)

number_agree : (x y : ℕ) → Agree (finite_f64 x) (finite_f64 y) (number x ≡ number y)
unfolding finite_f64
number_agree x y = elim (Bool-cases (is_finite x)) [
  | inl e ↦ elim (Bool-cases (is_finite y)) [
    | inl e' ↦ rw (e, e') (u64_agree (signed_bits x) (signed_bits y))
    | inr n' ↦ rw n' (swap_agree _ _ (none_agree _ _))
  ]
  | inr n ↦ rw n (none_agree _ _)
]

numbers_agree :
    (x y : List ℕ) → Agree (vector finite_f64 x) (vector finite_f64 y) (map number x ≡ map number y)
numbers_agree = vector_agree finite_f64 number number_agree

evidence_agree :
    (x y : ProjectionCompatibilityEvidence)
    → Agree (encode_evidence x) (encode_evidence y) (evidence_part x ≡ evidence_part y)
unfolding encode_evidence
evidence_agree x y =
    weaken _ _
      (seq _ _ _ _ (u16_agree x.projection_version y.projection_version) λ _.
        seq _ _ _ _ (u16_agree x.feature_schema_version y.feature_schema_version)
          λ _. numbers_agree x.features y.features)
      (λ k. ground arith)

automation_agree :
    (x y : AutomationSignals)
    → Agree (encode_automation x) (encode_automation y) (automation_part x ≡ automation_part y)
unfolding encode_automation
automation_agree x y =
    weaken _ _
      (seq _ _ _ _ (boolean_agree x.webdriver y.webdriver)
        λ _. vector_agree string (λ t. t) string_agree x.tells y.tells)
      (λ k. ground arith)

class_bound : (x : StudyCaptureClass) → class_code x < 4
class_bound web_mobile = omega arith
class_bound web_desktop = omega arith
class_bound native_ios = omega arith
class_bound native_android = omega arith

class_small :
    (x y : StudyCaptureClass)
    → class_code x % 256 ≡ class_code y % 256
    → class_code x ≡ class_code y
class_small x y h = let sx = class_bound x in let sy = class_bound y in omega arith

class_agree :
    (x y : StudyCaptureClass)
    → Agree (u8 (class_code x)) (u8 (class_code y)) (class_code x ≡ class_code y)
class_agree x y = weaken _ _ (u8_agree (class_code x) (class_code y)) (class_small x y)

capture_agree :
    (x y : CaptureSignals)
    → Agree (encode_capture x) (encode_capture y) (capture_part x ≡ capture_part y)
unfolding encode_capture
capture_agree x y =
    weaken _ _
      (seq _ _ _ _ (boolean_agree x.virtual_device y.virtual_device) λ _.
        seq _ _ _ _ (option_agree finite_f64 number number_agree x.flatness y.flatness)
          λ _. option_agree finite_f64 number number_agree x.centroid y.centroid)
      (λ k. ground arith)

signals_agree :
    (x y : ClientSignals)
    → Agree (encode_signals x) (encode_signals y) (signals_part x ≡ signals_part y)
unfolding encode_signals
signals_agree x y =
    weaken _ _
      (seq _ _ _ _ (u32_agree x.v y.v) λ _.
        seq _ _ _ _ (option_agree string (λ t. t) string_agree x.env y.env) λ _.
          seq _ _ _ _
            (option_agree encode_automation automation_part automation_agree x.automation
              y.automation)
            λ _. option_agree encode_capture capture_part capture_agree x.capture y.capture)
      (λ k. ground arith)

study_agree :
    (x y : StudyRequestContext)
    → Agree (encode_study x) (encode_study y) (study_part x ≡ study_part y)
unfolding encode_study
study_agree x y =
    weaken _ _
      (seq _ _ _ _ (string_agree x.token y.token) λ _.
        seq _ _ _ _ (string_agree x.record_id y.record_id) λ _.
          seq _ _ _ _ (class_agree x.capture_class y.capture_class) λ _.
            seq _ _ _ _ (u16_agree x.feature_schema_version y.feature_schema_version)
              λ _. u16_agree x.projection_version y.projection_version)
      (λ k. ground arith)

-- Two requests are signed as the same: each field that the encoder writes is the same, the words
-- up to their size and the two zeros of a number the same.
pub record IsSignedSame (x y : ValidateFeaturesRequest) : Type 0 where
  pub reset_same : x.baseline_reset ≡ y.baseline_reset
  pub features_same : map number x.features ≡ map number y.features
  pub evidence_same :
      option_map evidence_part x.compatibility_evidence
      ≡ option_map evidence_part y.compatibility_evidence
  pub f0_same : option_map (map number) x.f0_contour ≡ option_map (map number) y.f0_contour
  pub accel_same :
      option_map (map number) x.accel_magnitude ≡ option_map (map number) y.accel_magnitude
  pub audio_same : option_map (λ t. t) x.audio_samples_b64 ≡ option_map (λ t. t) y.audio_samples_b64
  pub rate_same :
      option_map (λ n. n % u32_mod) x.audio_sample_rate_hz
      ≡ option_map (λ n. n % u32_mod) y.audio_sample_rate_hz
  pub signals_same :
      option_map signals_part x.client_signals ≡ option_map signals_part y.client_signals
  pub study_same : option_map study_part x.study ≡ option_map study_part y.study

request_agree :
    (x y : ValidateFeaturesRequest) → Agree (request_bytes x) (request_bytes y) (IsSignedSame x y)
unfolding request_bytes
request_agree x y =
    weaken _ _
      (seq _ _ _ _ (raw_agree digest_domain digest_domain refl) λ _.
        seq _ _ _ _ (boolean_agree x.baseline_reset y.baseline_reset) λ _.
          seq _ _ _ _ (numbers_agree x.features y.features) λ _.
            seq _ _ _ _
              (option_agree encode_evidence evidence_part evidence_agree x.compatibility_evidence
                y.compatibility_evidence)
              λ _.
                seq _ _ _ _
                  (option_agree (vector finite_f64) (map number) numbers_agree x.f0_contour
                    y.f0_contour)
                  λ _.
                    seq _ _ _ _
                      (option_agree (vector finite_f64) (map number) numbers_agree x.accel_magnitude
                        y.accel_magnitude)
                      λ _.
                        seq _ _ _ _
                          (option_agree string (λ t. t) string_agree x.audio_samples_b64
                            y.audio_samples_b64)
                          λ _.
                            seq _ _ _ _
                              (option_agree u32 (λ n. n % u32_mod) u32_agree x.audio_sample_rate_hz
                                y.audio_sample_rate_hz)
                              λ _.
                                seq _ _ _ _
                                  (option_agree encode_signals signals_part signals_agree
                                    x.client_signals y.client_signals)
                                  λ _.
                                    option_agree encode_study study_part study_agree x.study
                                      y.study)
      (λ k.
        let (_, (reset, (features, (evidence, (f0, (accel, (audio, (rate, (signals, study))))))))) =
          k in
        record {
          reset_same = reset;
          features_same = features;
          evidence_same = evidence;
          f0_same = f0;
          accel_same = accel;
          audio_same = audio;
          rate_same = rate;
          signals_same = signals;
          study_same = study;
        })

-- The bytes that are hashed determine every field that is signed: two requests with the same bytes have the same reset flag, features, compatibility evidence, contours, audio, sample rate, client signals and study context, up to the size of the words and the sign of zero.
pub request_bytes_lem :
    (x y : ValidateFeaturesRequest) (hashed : Bytes)
    → request_bytes x ≡ ok hashed
    → request_bytes y ≡ ok hashed
    → IsSignedSame x y
request_bytes_lem x y hashed e e' = (request_agree x y hashed hashed [] [] e e' refl).0
