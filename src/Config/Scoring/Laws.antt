-- ===== src/Config/Scoring/Laws.antt =====
-- What a scoring configuration that src/config.rs takes rests on.
use executor_node.Prelude.{
  ◌⊎◌, ◌≡◌, ◌≤◌, refl, sym, ap, ◌∙◌, inl, inr, true, false, ◌||◌, Option, none, some, List, [], ◌∷◌,
  ◌++◌, Bytes, Bytes_eq, bytes_eq_iff, ◌==◌, all, arith, ltb, nat_eq, nat_eq_iff, ok, length,
  Bool-cases, Option-cases, Result-cases,
}
use executor_node.Validation.Float.{Arithmetic}
use executor_node.Validation.Composite.{ScoringConfig, try_new, development_default}
use executor_node.Text.{split}
use executor_node.Text.Laws.{joined, joined-split}
use executor_node.Config.Values.{is_prod, scoring_code}
use executor_node.Config.Scoring.{
  SignedScoringPayload, ResolvedScoringConfig, ScoringConfigRequirements, signed, Crypto,
  cluster_code, scoring_config_domain, validate_scoring_binding, decode_canonical_base58,
  payload_config, resolve_config, resolve_payload, resolve_pair, resolve_parts,
  resolve_scoring_config,
}

-- The payload is for this release.
pub record IsBound (p : SignedScoringPayload) (r : ScoringConfigRequirements) : Type 0 where
  pub schema_version : p.schema_version ≡ 1
  pub service : p.service ≡ r.service
  pub cluster : p.cluster ≡ cluster_code r.cluster
  pub environment : p.environment ≡ scoring_code r.environment
  pub revision : p.revision ≡ r.revision

validate_scoring_binding-IsBound :
    (p : SignedScoringPayload) (r : ScoringConfigRequirements)
    → validate_scoring_binding p r ≡ ok tt
    → IsBound p r
unfolding validate_scoring_binding
validate_scoring_binding-IsBound p r h = record {
  schema_version = ground arith;
  service = (bytes_eq_iff p.service r.service).0 (ground arith);
  cluster = ground arith;
  environment = ground arith;
  revision = ground arith;
}

module _ (crypto : Crypto) (float : Arithmetic) where
  decode_canonical_base58-ok :
      (value decoded : Bytes)
      → decode_canonical_base58 crypto float value ≡ ok decoded
      → (crypto.decode value ≡ some decoded) × (crypto.encode decoded ≡ value)
  unfolding decode_canonical_base58
  decode_canonical_base58-ok value decoded h = elim (Option-cases (crypto.decode value)) [
    | inl garbled ↦ absurd (ground (arith, rw (garbled, decode_canonical_base58) at h))
    | inr (d, read) ↦ elim (Bool-cases (crypto.encode d == value)) [
      | inr other ↦ absurd (ground (arith, rw (read, other, decode_canonical_base58) at h))
      | inl canonical ↦
          let same : d ≡ decoded =
            ground (arith, rw (read, canonical, decode_canonical_base58) at h) in
          (
            read ∙ ap some same,
            ap crypto.encode (sym same) ∙ (bytes_eq_iff (crypto.encode d) value).0 canonical,
          )
    ]
  ]

  payload_config-ok :
      (p : SignedScoringPayload) (config : ScoringConfig)
      → payload_config crypto float p ≡ some config
      → try_new float p.biometric_ppm p.tts_ppm p.unallocated_ppm p.automation_ppm p.reputation_ppm
          p.friction_threshold_ppm p.reject_threshold_ppm
        ≡ ok config
  payload_config-ok p config h =
      elim (Result-cases (
        try_new float p.biometric_ppm p.tts_ppm p.unallocated_ppm p.automation_ppm p.reputation_ppm
          p.friction_threshold_ppm p.reject_threshold_ppm)) [
            | inr (e, refused) ↦ absurd (ground (arith, rw (refused, payload_config) at h))
            | inl (c, made) ↦ made ∙ ap ok (ground (arith, rw (made, payload_config) at h))
          ]

  -- A bundle that is taken.
  pub record IsSigned (bundle : Bytes) (r : ScoringConfigRequirements)
      (resolved : ResolvedScoringConfig) : Type 0 where
    pub payload_bs58 : Bytes
    pub signature_bs58 : Bytes
    pub payload_bytes : Bytes
    pub signature_bytes : Bytes
    pub signature : Bytes
    pub payload : SignedScoringPayload
    pub layout : bundle ≡ payload_bs58 ++ (46 ∷ signature_bs58)
    pub payload_decoded : crypto.decode payload_bs58 ≡ some payload_bytes
    pub payload_canonical : crypto.encode payload_bytes ≡ payload_bs58
    pub payload_long : length payload_bytes ≡ 87
    pub signature_decoded : crypto.decode signature_bs58 ≡ some signature_bytes
    pub signature_canonical : crypto.encode signature_bytes ≡ signature_bs58
    pub signature_long : crypto.signature signature_bytes ≡ some signature
    pub verified :
        crypto.verify signature r.authority (scoring_config_domain ++ payload_bytes) ≡ true
    pub parsed : crypto.from_slice payload_bytes ≡ some payload
    pub bound : IsBound payload r
    pub nonce_set : all (λ byte. nat_eq byte 0) payload.audit_nonce ≡ false
    pub allowed :
        try_new float payload.biometric_ppm payload.tts_ppm payload.unallocated_ppm
          payload.automation_ppm payload.reputation_ppm payload.friction_threshold_ppm
          payload.reject_threshold_ppm
        ≡ ok resolved.config
    pub named : crypto.hash_text (scoring_config_domain ++ payload_bytes) ≡ r.config_id
    pub config_id : resolved.config_id ≡ r.config_id
    pub revision : resolved.revision ≡ r.revision
    pub source : resolved.source ≡ signed

  -- What the part from the configuration on establishes.
  resolve_config-ok :
      (r : ScoringConfigRequirements) (payload_bytes : Bytes) (p : SignedScoringPayload)
      (resolved : ResolvedScoringConfig)
      → resolve_config crypto float r payload_bytes p ≡ ok resolved
      → (payload_config crypto float p ≡ some resolved.config)
        × (crypto.hash_text (scoring_config_domain ++ payload_bytes) ≡ r.config_id)
        × (resolved.config_id ≡ r.config_id)
        × (resolved.revision ≡ p.revision)
        × (resolved.source ≡ signed)
  unfolding resolve_config
  resolve_config-ok r payload_bytes p resolved h =
      elim (Option-cases (payload_config crypto float p)) [
        | inl refused ↦ absurd (ground (arith, rw (refused, resolve_config) at h))
        | inr (c, made) ↦
            let id = crypto.hash_text (scoring_config_domain ++ payload_bytes) in
            elim (Bool-cases (id == r.config_id)) [
              | inr other ↦ absurd (ground (arith, rw (made, other, resolve_config) at h))
              | inl same ↦
                  let named = (bytes_eq_iff id r.config_id).0 same in
                  let whole = rw (made, same, resolve_config) at h in
                  (
                    made ∙ ap some (ground (arith, whole)),
                    named,
                    ground (arith, whole, named),
                    ground (arith, whole),
                    ground (arith, whole),
                  )
            ]
      ]

  -- What the part from the signed payload on establishes.
  resolve_payload-ok :
      (r : ScoringConfigRequirements) (payload_bytes : Bytes) (resolved : ResolvedScoringConfig)
      → resolve_payload crypto float r payload_bytes ≡ ok resolved
      → (p : SignedScoringPayload) × (crypto.from_slice payload_bytes ≡ some p)
        × IsBound p r
        × (all (λ byte. nat_eq byte 0) p.audit_nonce ≡ false)
        × (resolve_config crypto float r payload_bytes p ≡ ok resolved)
  unfolding resolve_payload
  resolve_payload-ok r payload_bytes resolved h =
      elim (Option-cases (crypto.from_slice payload_bytes)) [
        | inl malformed ↦ absurd (ground (arith, rw (malformed, resolve_payload) at h))
        | inr (p, parsed) ↦ elim (Result-cases (validate_scoring_binding p r)) [
          | inr (e, foreign) ↦ absurd (ground (arith, rw (parsed, foreign, resolve_payload) at h))
          | inl (u, bound) ↦ elim (Bool-cases (all (λ byte. nat_eq byte 0) p.audit_nonce)) [
            | inl zeroes ↦ absurd (ground (arith, rw (parsed, bound, zeroes, resolve_payload) at h))
            | inr fresh ↦ (
              p,
              parsed,
              validate_scoring_binding-IsBound p r bound,
              fresh,
              rw (parsed, bound, fresh, resolve_payload) at h,
            )
          ]
        ]
      ]

  resolve_pair-IsSigned :
      (r : ScoringConfigRequirements) (bundle payload_bs58 signature_bs58 : Bytes)
      (resolved : ResolvedScoringConfig)
      → bundle ≡ payload_bs58 ++ (46 ∷ signature_bs58)
      → resolve_pair crypto float r payload_bs58 signature_bs58 ≡ ok resolved
      → IsSigned bundle r resolved
  unfolding resolve_pair
  resolve_pair-IsSigned r bundle left right resolved layout h =
      elim (Result-cases (decode_canonical_base58 crypto float left)) [
        | inr (e, garbled) ↦ absurd (ground (arith, rw (garbled, resolve_pair) at h))
        | inl (d, read) ↦ elim (Bool-cases (nat_eq (length d) 87)) [
          | inr short ↦ absurd (ground (arith, rw (read, short, resolve_pair) at h))
          | inl long ↦ elim (Result-cases (decode_canonical_base58 crypto float right)) [
            | inr (e, garbled) ↦
                absurd (ground (arith, rw (read, long, garbled, resolve_pair) at h))
            | inl (b, signed_) ↦ elim (Option-cases (crypto.signature b)) [
              | inl wrong ↦
                  absurd (ground (arith, rw (read, long, signed_, wrong, resolve_pair) at h))
              | inr (sig, fits) ↦
                  elim (Bool-cases (crypto.verify sig r.authority (scoring_config_domain ++ d))) [
                    | inr forged ↦
                        absurd (
                          ground (arith, rw (read, long, signed_, fits, forged, resolve_pair) at h))
                    | inl verified ↦
                        let (payload_decoded, payload_canonical) =
                          decode_canonical_base58-ok left d read in
                        let (signature_decoded, signature_canonical) =
                          decode_canonical_base58-ok right b signed_ in
                        let (p, parsed, bound, fresh, rest) =
                          resolve_payload-ok r d resolved
                            (rw (read, long, signed_, fits, verified, resolve_pair) at h) in
                        let (allowed, named, config_id, revision, source) =
                          resolve_config-ok r d p resolved rest in
                        record {
                          payload_bs58 = left;
                          signature_bs58 = right;
                          payload_bytes = d;
                          signature_bytes = b;
                          signature = sig;
                          payload = p;
                          layout = layout;
                          payload_decoded = payload_decoded;
                          payload_canonical = payload_canonical;
                          payload_long = (nat_eq_iff (length d) 87).0 long;
                          signature_decoded = signature_decoded;
                          signature_canonical = signature_canonical;
                          signature_long = fits;
                          verified = verified;
                          parsed = parsed;
                          bound = bound;
                          nonce_set = fresh;
                          allowed = payload_config-ok p resolved.config allowed;
                          named = named;
                          config_id = config_id;
                          revision = revision ∙ bound.revision;
                          source = source;
                        }
                  ]
            ]
          ]
        ]
      ]

  resolve_parts-IsSigned :
      (r : ScoringConfigRequirements) (bundle : Bytes) (parts : List Bytes)
      (resolved : ResolvedScoringConfig)
      → bundle ≡ joined 46 parts
      → resolve_parts crypto float r parts ≡ ok resolved
      → IsSigned bundle r resolved
  unfolding resolve_parts
  resolve_parts-IsSigned r bundle [] resolved layout h = absurd (ground arith)
  resolve_parts-IsSigned r bundle (a ∷ []) resolved layout h = absurd (ground arith)
  resolve_parts-IsSigned r bundle (a ∷ b ∷ c ∷ rest) resolved layout h = absurd (ground arith)
  resolve_parts-IsSigned r bundle (a ∷ b ∷ []) resolved layout h =
      elim (Bool-cases (a == [] || b == [])) [
        | inl empty ↦ absurd (ground (arith, rw (empty, resolve_parts) at h))
        | inr both ↦
            resolve_pair-IsSigned r bundle a b resolved layout (rw (both, resolve_parts) at h)
      ]

  -- A scoring configuration that is taken is either the development default, which only a server outside production takes and only when no bundle is set, or that of a bundle of at most 256 characters. Such a bundle is two texts in canonical base 58 with a dot between them: a payload of 87 bytes and a signature of it that verifies under the required authority. The payload names the required service, cluster, environment and revision and has a nonce that is not zero, its values pass the checks of a scoring configuration, and its hash is the required identifier.
  pub resolve_scoring_config-IsSigned :
      (bundle : Option Bytes) (r : ScoringConfigRequirements) (resolved : ResolvedScoringConfig)
      → resolve_scoring_config crypto float bundle r ≡ ok resolved
      → ((bundle ≡ none)
          × (is_prod r.environment ≡ false)
          × (resolved.config ≡ development_default float))
        ⊎ ((text : Bytes) × (bundle ≡ some text) × (length text ≤ 256) × IsSigned text r resolved)
  unfolding resolve_scoring_config
  resolve_scoring_config-IsSigned none r resolved h = elim (Bool-cases (is_prod r.environment)) [
    | inl production ↦ absurd (ground (arith, rw (production, resolve_scoring_config) at h))
    | inr development ↦
        let whole = rw (development, resolve_scoring_config) at h in
        inl (refl, development, ground (arith, whole))
  ]
  resolve_scoring_config-IsSigned (some text) r resolved h =
      elim (Bool-cases (ltb 256 (length text))) [
        | inl over ↦ absurd (ground (arith, rw (over, resolve_scoring_config) at h))
        | inr fits ↦ elim (Bool-cases (all (λ c. ltb c 128) text)) [
          | inr foreign ↦ absurd (ground (arith, rw (fits, foreign, resolve_scoring_config) at h))
          | inl ascii ↦ inr (
            text,
            refl,
            ground arith,
            resolve_parts-IsSigned r text (split 46 text) resolved (sym (joined-split 46 text))
                (rw (fits, ascii, resolve_scoring_config) at h),
          )
        ]
      ]
