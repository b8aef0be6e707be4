-- ===== src/Config/Scoring.antt =====
-- src/config.rs: the signed scoring configuration, and the signed address of the validation service.
-- Base 58, the hash, the signature check and the borsh reader are parameters.
pub mod Laws
use Prim.Native.String.{String}
use executor_node.Prelude.{
  ℕ, Bool, true, false, not, ◌&&◌, ◌||◌, Option, none, some, List, [], ◌∷◌, ◌++◌, Bytes, bytes,
  Bytes_eq, ◌==◌, ltb, nat_eq, if◌then◌else◌, Result, ok, err, length, all,
}
use executor_node.Validation.Float.{Arithmetic}
use executor_node.Validation.Composite.{ScoringConfig, try_new, development_default}
use executor_node.Text.{split}
use executor_node.Config.Values.{Environment, is_prod, scoring_code}

abbrev pub validation_url_authority_bs58 : Bytes
validation_url_authority_bs58 = bytes "GYm3f7DTvTZ6dN1Gfe7UowHRerxTU4FK2u1w6zVGVT3Y"

abbrev pub validation_url_domain_prefix : Bytes
validation_url_domain_prefix = bytes "Entros-VALIDATOR-URL-V1:"

abbrev pub expected_scoring_service : Bytes
expected_scoring_service = bytes "entros-executor" ++ (0 ∷ [])

abbrev pub scoring_config_schema_version : ℕ
scoring_config_schema_version = 1

abbrev pub scoring_config_domain : Bytes
scoring_config_domain =
    bytes "Entros" ++ (0 ∷ (bytes "executor-scoring-config" ++ (0 ∷ (bytes "v1" ++ (0 ∷ [])))))

abbrev pub scoring_config_payload_bytes : ℕ
scoring_config_payload_bytes = 87

abbrev pub scoring_config_bundle_max_bytes : ℕ
scoring_config_bundle_max_bytes = 256

pub data ScoringCluster : Type 0 where
  devnet : ScoringCluster

abbrev pub cluster_code : ScoringCluster → ℕ
cluster_code devnet = 1

pub record SignedScoringPayload : Type 0 where
  pub schema_version : ℕ
  pub service : Bytes
  pub cluster : ℕ
  pub environment : ℕ
  pub revision : ℕ
  pub audit_nonce : Bytes
  pub biometric_ppm : ℕ
  pub tts_ppm : ℕ
  pub unallocated_ppm : ℕ
  pub automation_ppm : ℕ
  pub reputation_ppm : ℕ
  pub friction_threshold_ppm : ℕ
  pub reject_threshold_ppm : ℕ

pub data ScoringConfigSource : Type 0 where
  development_default_ signed : ScoringConfigSource

pub record ResolvedScoringConfig : Type 0 where
  pub config : ScoringConfig
  pub revision : ℕ
  pub config_id : Bytes
  pub source : ScoringConfigSource

pub record ScoringConfigRequirements : Type 0 where
  pub authority : Bytes
  pub config_id : Bytes
  pub service : Bytes
  pub cluster : ScoringCluster
  pub environment : Environment
  pub revision : ℕ

-- The code that is not the repository's.
pub record Crypto : Type 0 where
  -- `bs58::decode` and `bs58::encode`
  pub decode : Bytes → Option Bytes
  pub encode : Bytes → Bytes
  -- `Signature::try_from`
  pub signature : Bytes → Option Bytes
  -- `Signature::verify`: the signature, the key and the message
  pub verify : Bytes → Bytes → Bytes → Bool
  -- `hashv` and its text
  pub hash_text : Bytes → Bytes
  -- `borsh::from_slice`
  pub from_slice : Bytes → Option SignedScoringPayload

abbrev is_ascii : Bytes → Bool
is_ascii t = all (λ c. ltb c 128) t

unfoldable pub validate_scoring_binding :
    SignedScoringPayload → ScoringConfigRequirements → Result String (Unit {0})
validate_scoring_binding p r =
    if not (nat_eq p.schema_version scoring_config_schema_version)
    then err "schema version is not supported"
    else (if not (p.service == r.service)
        then err "service binding does not match"
        else (if not (nat_eq p.cluster (cluster_code r.cluster))
            then err "cluster binding does not match"
            else (if not (nat_eq p.environment (scoring_code r.environment))
                then err "environment binding does not match"
                else (if not (nat_eq p.revision r.revision)
                    then err "revision binding does not match"
                    else ok tt))))

module _ (crypto : Crypto) (float : Arithmetic) where
  unfoldable pub decode_canonical_base58 : Bytes → Result String Bytes
  decode_canonical_base58 value = elim (crypto.decode value) [
    | none ↦ err "is not valid base58"
    | some decoded ↦
        if not (crypto.encode decoded == value) then err "must use canonical base58" else ok decoded
  ]

  abbrev payload_config : SignedScoringPayload → Option ScoringConfig
  payload_config p =
      elim (try_new float p.biometric_ppm p.tts_ppm p.unallocated_ppm p.automation_ppm
        p.reputation_ppm p.friction_threshold_ppm p.reject_threshold_ppm) [
          | err e ↦ none
          | ok config ↦ some config
        ]

  -- From the configuration on.
  unfoldable pub resolve_config :
      ScoringConfigRequirements → Bytes → SignedScoringPayload → Result String ResolvedScoringConfig
  unfolding try_new
  resolve_config r payload_bytes payload = elim (payload_config payload) [
    | none ↦ err "policy invariants are invalid"
    | some config ↦
        let config_id = crypto.hash_text (scoring_config_domain ++ payload_bytes) in
        if not (config_id == r.config_id)
        then err "config ID does not match this release"
        else ok (record {
          config = config;
          revision = payload.revision;
          config_id = config_id;
          source = signed;
        })
  ]

  -- From the signed payload on.
  unfoldable pub resolve_payload :
      ScoringConfigRequirements → Bytes → Result String ResolvedScoringConfig
  unfolding validate_scoring_binding resolve_config
  resolve_payload r payload_bytes = elim (crypto.from_slice payload_bytes) [
    | none ↦ err "payload is malformed"
    | some payload ↦ elim (validate_scoring_binding payload r) [
      | err e ↦ err e
      | ok _ ↦
          if all (λ byte. nat_eq byte 0) payload.audit_nonce
          then err "audit nonce must not be all zeroes"
          else resolve_config r payload_bytes payload
    ]
  ]

  -- The two parts.
  unfoldable pub resolve_pair :
      ScoringConfigRequirements → Bytes → Bytes → Result String ResolvedScoringConfig
  unfolding decode_canonical_base58 resolve_payload
  resolve_pair r payload_bs58 signature_bs58 = elim (decode_canonical_base58 payload_bs58) [
    | err e ↦ err e
    | ok payload_bytes ↦
        if not (nat_eq (length payload_bytes) scoring_config_payload_bytes)
        then err "payload has an invalid length"
        else elim (decode_canonical_base58 signature_bs58) [
          | err e ↦ err e
          | ok signature_bytes ↦ elim (crypto.signature signature_bytes) [
            | none ↦ err "signature has an invalid length"
            | some signature ↦
                if not
                  (crypto.verify signature r.authority (scoring_config_domain ++ payload_bytes))
                then err "signature does not verify against the scoring authority"
                else resolve_payload r payload_bytes
          ]
        ]
  ]

  unfoldable pub resolve_parts :
      ScoringConfigRequirements → List Bytes → Result String ResolvedScoringConfig
  unfolding resolve_pair
  resolve_parts r (payload_bs58 ∷ signature_bs58 ∷ []) =
      if payload_bs58 == [] || signature_bs58 == []
      then err "must contain exactly one payload.signature pair"
      else resolve_pair r payload_bs58 signature_bs58
  resolve_parts r (payload_bs58 ∷ signature_bs58 ∷ more ∷ rest) =
      err "must contain exactly one payload.signature pair"
  resolve_parts r _ = err "must contain payload.signature"

  unfoldable pub resolve_scoring_config :
      Option Bytes → ScoringConfigRequirements → Result String ResolvedScoringConfig
  unfolding development_default split resolve_parts
  resolve_scoring_config none r =
      if is_prod r.environment
      then err "is required when ENVIRONMENT=prod"
      else ok (record {
        config = development_default float;
        revision = 0;
        config_id = bytes "development-default";
        source = development_default_;
      })
  resolve_scoring_config (some bundle) r =
      if ltb scoring_config_bundle_max_bytes (length bundle)
      then err "exceeds the maximum encoded size"
      else (if not (is_ascii bundle)
          then err "must contain ASCII base58 data"
          else resolve_parts r (split 46 bundle))

  unfoldable pub verify_url_signature_against : Bytes → Bytes → Bytes → Result String (Unit {0})
  verify_url_signature_against url signature_bs58 authority = elim (crypto.decode signature_bs58) [
    | none ↦ err "VALIDATION_SERVICE_URL_SIGNATURE is not valid bs58"
    | some signature_bytes ↦ elim (crypto.signature signature_bytes) [
      | none ↦ err "VALIDATION_SERVICE_URL_SIGNATURE has invalid length"
      | some signature ↦
          if not (crypto.verify signature authority (validation_url_domain_prefix ++ url))
          then err "VALIDATION_SERVICE_URL_SIGNATURE does not verify against authority"
          else ok tt
    ]
  ]

  -- `from_str` reads a key.
  unfoldable pub verify_validation_url_signature :
      (Bytes → Option Bytes) → Bytes → Bytes → Result String (Unit {0})
  unfolding verify_url_signature_against
  verify_validation_url_signature from_str url signature_bs58 =
      elim (from_str validation_url_authority_bs58) [
        | none ↦ err "hardcoded validation URL authority is invalid"
        | some authority ↦ verify_url_signature_against url signature_bs58 authority
      ]

  unfoldable pub parse_compiled : Bytes → Result String Bytes
  parse_compiled value = elim (crypto.decode value) [
    | none ↦ err "compiled scoring config ID is not valid base58"
    | some decoded ↦
        if not (nat_eq (length decoded) 32) || not (crypto.encode decoded == value)
        then err "compiled scoring config ID is not a canonical 32-byte value"
        else ok value
  ]
