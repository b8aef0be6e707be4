-- ===== src/Config/Tests.antt =====
-- Runs of src/config.rs, and the theorems at concrete inputs.
use executor_node.Prelude.{
  ◌+◌, ◌-◌, ◌≤◌, ◌≡◌, ◌⊎◌, refl, min, true, false, none, some, [], ◌∷◌, ◌++◌, Bytes, bytes,
  bytes_eq, Bytes_eq, ◌==◌, ok, err, length, replicate,
}
use executor_node.Validation.Float.{Arithmetic}
use executor_node.Validation.Composite.{
  try_new, first_over, check_thresholds, from_ppm, development_default,
}
use executor_node.Error.{text}
use executor_node.Text.{split, parse_u64, parse_digits}
use executor_node.Config.Values.{
  Uri, prod, is_prod, trim_start, trim_end, to_ascii_lowercase, parse_bool,
  parse_challenge_ttl_secs, parse_paired_session_concurrency, parse_wallets, parse_paired_wallets,
  parse_origin, parse_origins, parse_cors_origins,
}
use executor_node.Config.Scoring.{
  SignedScoringPayload, ScoringConfigRequirements, ResolvedScoringConfig, Crypto, devnet, signed,
  expected_scoring_service, validate_scoring_binding, decode_canonical_base58, resolve_config,
  resolve_payload, resolve_pair, resolve_parts, resolve_scoring_config,
}
use executor_node.Config.Scoring.Laws.{IsSigned, resolve_scoring_config-IsSigned}

lenient :
    (parse_bool (some (bytes " ON\n")) false ≡ true)
    × (parse_bool (some (bytes "No")) true ≡ false)
    × (parse_bool (some (bytes "yep")) true ≡ true)
unfolding parse_bool trim_start trim_end to_ascii_lowercase bytes_eq
lenient = (refl, refl, refl)

lifetimes :
    (parse_challenge_ttl_secs none ≡ ok 180)
    × (parse_challenge_ttl_secs (some (bytes "300")) ≡ ok 300)
    × (parse_challenge_ttl_secs (some (bytes "0"))
        ≡ err (text "CHALLENGE_TTL_SECS must be between 1 and 300"))
    × (parse_paired_session_concurrency (some (bytes " 128 ")) ≡ ok 128)
unfolding parse_challenge_ttl_secs parse_paired_session_concurrency parse_u64 parse_digits
    trim_start trim_end
lifetimes = (refl, refl, refl, refl)

listed : parse_paired_wallets some (some (bytes " A, ,B ")) ≡ ok (some (bytes "A" ∷ bytes "B" ∷ []))
unfolding parse_paired_wallets parse_wallets split trim_start trim_end bytes_eq
listed = refl

abbrev site : Bytes
site = bytes "https://a.example"

abbrev uri : Uri
uri = record {
  scheme = some (bytes "https");
  has_authority = true;
  path = bytes "/";
  has_query = false;
}

answered : parse_cors_origins (λ v. some uri) some (site ∷ []) prod ≡ ok (site ∷ [])
unfolding parse_cors_origins parse_origins parse_origin bytes_eq
answered = refl

abbrev coarse : Arithmetic
coarse = record {
  add = λ x y. x + y;
  sub = λ x y. x - y;
  mul = min;
  div = λ x y. x;
  of_nat = λ n. n;
}

abbrev payload : SignedScoringPayload
payload = record {
  schema_version = 1;
  service = expected_scoring_service;
  cluster = 1;
  environment = 2;
  revision = 1;
  audit_nonce = replicate 32 5;
  biometric_ppm = 290000;
  tts_ppm = 210000;
  unallocated_ppm = 180000;
  automation_ppm = 160000;
  reputation_ppm = 160000;
  friction_threshold_ppm = 420000;
  reject_threshold_ppm = 690000;
}

-- Text that stands for itself, and a signature that is the key.
abbrev crypto : Crypto
crypto = record {
  decode = some;
  encode = λ t. t;
  signature = some;
  verify = λ signature key message. signature == key;
  hash_text = λ message. bytes "release";
  from_slice = λ bytes_. some payload;
}

abbrev requirements : ScoringConfigRequirements
requirements = record {
  authority = bytes "authority";
  config_id = bytes "release";
  service = expected_scoring_service;
  cluster = devnet;
  environment = prod;
  revision = 1;
}

abbrev bundle : Bytes
bundle = replicate 87 65 ++ bytes ".authority"

abbrev resolved : ResolvedScoringConfig
resolved = record {
  config = record {
    biometric_weight = 290000;
    tts_weight = 210000;
    automation_weight = 160000;
    reputation_weight = 160000;
    friction_threshold = 420000;
    reject_threshold = 690000;
  };
  revision = 1;
  config_id = bytes "release";
  source = signed;
}

resolves : resolve_scoring_config crypto coarse (some bundle) requirements ≡ ok resolved
unfolding resolve_scoring_config split resolve_parts resolve_pair decode_canonical_base58
    resolve_payload validate_scoring_binding resolve_config try_new first_over check_thresholds
    from_ppm bytes_eq
resolves = refl

unsigned :
    resolve_scoring_config crypto coarse (some (replicate 87 65 ++ bytes ".forger")) requirements
    ≡ err "signature does not verify against the scoring authority"
unfolding resolve_scoring_config split resolve_parts resolve_pair decode_canonical_base58 bytes_eq
unsigned = refl

resolve_scoring_config-IsSigned_example :
    ((some bundle ≡ none) × (is_prod prod ≡ false) × (resolved.config ≡ development_default coarse))
    ⊎ ((text : Bytes) × (some bundle ≡ some text)
        × (length text ≤ 256)
        × IsSigned crypto coarse text requirements resolved)
resolve_scoring_config-IsSigned_example =
    resolve_scoring_config-IsSigned crypto coarse (some bundle) requirements resolved resolves
