-- ===== src/Validation/Tests.antt =====
-- Small requests and services for src/validation.
use executor_node.Prelude.{
  ℕ, ◌+◌, ◌-◌, ◌≤◌, ◌<◌, ◌≡◌, ◌↔◌, ◌≢◌, err, ◌⊎◌, refl, min, max, true, false, none, some, [], ◌∷◌,
  ◌++◌, Bytes, bytes, Bytes_eq, arith, ok, is_ok, length, take, replicate, nat_eq,
}
use executor_node.Validation.Float.{
  Arithmetic, sign_bit, infinity, one, half, rank, is_nan, is_finite, lt,
}
use executor_node.Validation.Composite.{
  ScoringConfig, RiskComponents, parts_per_million, try_new, score, rejects, requires_friction,
  first_over, check_thresholds, from_ppm, bounded,
}
use executor_node.Validation.Composite.Laws.{
  IsRounding, IsShare, IsNonneg, IsNoWorse, try_new_iff, rejects_mono,
}
use executor_node.Validation.Request.{ValidateFeaturesRequest}
use executor_node.Validation.Digest.{
  request_bytes, digest_domain, boolean, vector, encode_length, each, finite_f64, signed_bits,
  little_endian, option, string, ◌▸◌,
}
use executor_node.Validation.Digest.Laws.{IsSignedSame, request_bytes_lem}
use executor_node.Validation.Authorization.{Wallets, verify_wallet_authorization}
use executor_node.Validation.Authorization.Laws.{IsSigned, verify_wallet_authorization_lem}
use executor_node.Error.{projection_update_required, solana_rpc_unavailable}
use executor_node.Validation.Intent.{
  mint, update, rebaseline, reset, identity_discriminator, stored_version, derive_projection_intent,
}
use executor_node.Validation.Intent.Laws.{derive_projection_intent_lem}

abbrev account : Bytes
account = identity_discriminator ++ replicate 127 1

derive_projection_intent_lem_example :
    ((derive_projection_intent none 2 false ≡ ok mint) ↔ ((false ≡ false) × (mint ≡ mint)))
    × ((derive_projection_intent (some account) 2 false ≡ ok mint) ↔ (
        (8 ≤ length account)
        × (take 8 account ≡ identity_discriminator)
        × (((2 ≡ stored_version account) × (false ≡ true) × (mint ≡ reset))
            ⊎ ((2 ≡ stored_version account) × (false ≡ false) × (mint ≡ update))
            ⊎ ((stored_version account < 2) × (false ≡ false) × (mint ≡ rebaseline)))))
    × ((derive_projection_intent (some account) 2 false ≡ err projection_update_required) ↔ (
        (8 ≤ length account)
        × (take 8 account ≡ identity_discriminator)
        × (2 < stored_version account)))
    × ((derive_projection_intent (some account) 2 false ≡ err solana_rpc_unavailable)
        ↔ ((length account < 8) ⊎ (take 8 account ≢ identity_discriminator)))
derive_projection_intent_lem_example = derive_projection_intent_lem account 2 false mint

abbrev plain : ValidateFeaturesRequest
plain = record {
  features = 0 ∷ [];
  wallet_id = bytes "W";
  projection_version = none;
  compatibility_evidence = none;
  wallet_authorization = none;
  baseline_reset = false;
  f0_contour = none;
  accel_magnitude = none;
  audio_samples_b64 = some (bytes "AAA=");
  audio_sample_rate_hz = some 16000;
  client_signals = none;
  study = none;
}

-- The same request with the other zero.
abbrev negated : ValidateFeaturesRequest
negated = record plain { features = sign_bit ∷ [] }

abbrev plain_bytes : Bytes
plain_bytes =
    digest_domain
    ++ (0 ∷ 1 ∷ replicate 11 0)
    ++ (0 ∷ 0 ∷ 0 ∷ 1 ∷ 4 ∷ 0 ∷ 0 ∷ 0 ∷ 65 ∷ 65 ∷ 65 ∷ 61 ∷ 1 ∷ 128 ∷ 62 ∷ 0 ∷ 0 ∷ 0 ∷ 0 ∷ [])

request_bytes_lem_example : IsSignedSame plain negated
unfolding request_bytes boolean vector encode_length each finite_f64 is_finite signed_bits
    little_endian option string ◌▸◌
request_bytes_lem_example = request_bytes_lem plain negated plain_bytes refl refl

abbrev wallets : Wallets
wallets = record {
  hash = λ b. take 32 b;
  from_str = λ t. some t;
  to_string = λ w. w;
  verify = λ signature wallet message. true;
  decimal = λ n. [];
}

verify_wallet_authorization_lem_example :
    ((verify_wallet_authorization wallets plain (bytes "W") 1 ≡ ok none)
      ↔ ((nat_eq 1 2 ≡ false) × (plain.wallet_authorization ≡ none)))
    × ((nonce : Bytes)
        → verify_wallet_authorization wallets plain (bytes "W") 1 ≡ ok (some nonce)
        → (◌≡◌ {A = ℕ} 1 2) × IsSigned wallets plain (bytes "W") 1 nonce)
verify_wallet_authorization_lem_example =
    verify_wallet_authorization_lem wallets plain (bytes "W") 1

coarse-IsShare : (ppm : ℕ) → ppm ≤ parts_per_million → IsShare (min ppm one)
unfolding rank is_nan
coarse-IsShare ppm h = ground arith

-- Operations that round to one of their arguments.
abbrev coarse : Arithmetic
coarse = record {
  add = λ x y. max (rank x) (rank y) - sign_bit;
  sub = λ x y. x - y;
  mul = λ x y. min (rank x) (rank y) - sign_bit;
  div = λ x y. min x one;
  of_nat = λ n. n;
}

rank_back :
    (x : ℕ)
    → sign_bit ≤ x
    → x ≤ sign_bit + infinity
    → IsNonneg (x - sign_bit) × (rank (x - sign_bit) ≡ x)
unfolding rank is_nan
rank_back x l h = ground arith

nonneg_top : (x : ℕ) → IsNonneg x → rank x ≤ sign_bit + infinity
unfolding rank is_nan
nonneg_top x h = ground arith

coarse-IsRounding : IsRounding coarse
coarse-IsRounding = record {
  share_in = λ ppm h. coarse-IsShare ppm h;
  mul_nonneg = λ w x h k.
      (rank_back (min (rank w) (rank x)) (omega (arith, h.1, k.1)) (omega (arith, h.2, k.2))).0;
  mul_mono = λ w x y h k l o.
      rw
        (
          (rank_back (min (rank w) (rank x)) (omega (arith, h.1, k.1)) (omega (arith, h.2))).1,
          (rank_back (min (rank w) (rank y)) (omega (arith, h.1, l.1)) (omega (arith, h.2))).1,
        )
        (omega (arith, o));
  add_nonneg = λ x y h k.
      (rank_back (max (rank x) (rank y)) (omega (arith, h.1))
        (omega (arith, nonneg_top x h, nonneg_top y k))).0;
  add_mono = λ x x' y y' h k o o' h' k'.
      rw
        (
          (rank_back (max (rank x) (rank y)) (omega (arith, h.1))
              (omega (arith, nonneg_top x h, nonneg_top y k))).1,
          (rank_back (max (rank x') (rank y')) (omega (arith, h'.1))
              (omega (arith, nonneg_top x' h', nonneg_top y' k'))).1,
        )
        (omega (arith, o, o'));
}

abbrev quiet : RiskComponents
quiet = record { biometric = 0; tts = 0; temporal = 0; automation = 0; reputation = half }

abbrev loud : RiskComponents
loud = record { biometric = half; tts = infinity; temporal = 0; automation = one; reputation = one }

abbrev policy : ScoringConfig
policy = record {
  biometric_weight = 290000;
  tts_weight = 210000;
  automation_weight = 160000;
  reputation_weight = 160000;
  friction_threshold = 420000;
  reject_threshold = 690000;
}

try_new_iff_example :
    (is_ok (try_new coarse 290000 210000 180000 160000 160000 420000 690000) ≡ true) ↔ (
      (◌≡◌ {A = ℕ} (290000 + 210000 + 180000 + 160000 + 160000) parts_per_million)
      × (◌<◌ 420000 690000)
      × (690000 + 180000 < parts_per_million))
try_new_iff_example = try_new_iff coarse 290000 210000 180000 160000 160000 420000 690000

quiet-IsNoWorse : IsNoWorse quiet loud
unfolding bounded rank is_finite lt is_nan
quiet-IsNoWorse = ground arith

rejects_mono_example :
    (rejects policy (score coarse policy quiet) ≡ true
      → rejects policy (score coarse policy loud) ≡ true)
    × (requires_friction policy (score coarse policy quiet) ≡ true
        → requires_friction policy (score coarse policy loud) ≡ true)
unfolding try_new first_over check_thresholds from_ppm
rejects_mono_example =
    rejects_mono coarse coarse-IsRounding 290000 210000 180000 160000 160000 420000 690000 policy
      quiet loud refl quiet-IsNoWorse
