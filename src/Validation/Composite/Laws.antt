-- ===== src/Validation/Composite/Laws.antt =====
-- What src/validation/composite.rs accepts as a configuration, and the order of its scores.
use executor_node.Prelude.{
  inl, inr, ◌⊎◌, min, max, Bool-cases, refl, false, ap, ℕ, ◌+◌, ◌≤◌, ◌<◌, ◌≡◌, ◌↔◌, true, false,
  arith, ok, is_ok,
}
use executor_node.Validation.Float.{is_finite, Arithmetic, sign_bit, one, rank, is_nan, lt, le}
use executor_node.Validation.Composite.{
  ScoringConfig, RiskComponents, parts_per_million, try_new, from_ppm, bounded, score, rejects,
  requires_friction,
}

-- A configuration is accepted exactly when the five weights make up one million parts, and the friction threshold is below the rejection threshold, which is below what the weights that count can reach.
pub try_new_iff :
    (float : Arithmetic) (biometric tts unallocated automation reputation friction reject : ℕ)
    → (is_ok (try_new float biometric tts unallocated automation reputation friction reject) ≡ true)
      ↔ ((biometric + tts + unallocated + automation + reputation ≡ parts_per_million)
          × (friction < reject)
          × (reject + unallocated < parts_per_million))
unfolding try_new
try_new_iff float biometric tts unallocated automation reputation friction reject = ground arith

-- A number between 0 and 1, which is no NaN.
abbrev pub IsShare : ℕ → Type 0
IsShare x = (is_nan x ≡ false) × (sign_bit ≤ rank x) × (rank x ≤ sign_bit + one)

pub bounded-IsShare : (x : ℕ) → x < sign_bit + sign_bit → IsShare (bounded x)
unfolding bounded rank is_nan
bounded-IsShare x w = ground arith

abbrev pub IsNonneg : ℕ → Type 0
IsNonneg x = (is_nan x ≡ false) × (sign_bit ≤ rank x)

-- What IEEE 754 says of the rounding operations on numbers that are not negative.
pub record IsRounding (float : Arithmetic) : Type 0 where
  pub share_in :
      (ppm : ℕ)
      → ppm ≤ parts_per_million
      → IsShare (float.div (float.of_nat ppm) (float.of_nat parts_per_million))
  pub mul_nonneg : (w x : ℕ) → IsShare w → IsShare x → IsNonneg (float.mul w x)
  pub mul_mono :
      (w x y : ℕ)
      → IsShare w
      → IsShare x
      → IsShare y
      → rank x ≤ rank y
      → rank (float.mul w x) ≤ rank (float.mul w y)
  pub add_nonneg : (x y : ℕ) → IsNonneg x → IsNonneg y → IsNonneg (float.add x y)
  pub add_mono :
      (x x' y y' : ℕ)
      → IsNonneg x
      → IsNonneg y
      → rank x ≤ rank x'
      → rank y ≤ rank y'
      → IsNonneg x'
      → IsNonneg y'
      → rank (float.add x y) ≤ rank (float.add x' y')

-- The second component is as bad as the first, or worse: it is not finite, or both are finite and
-- in order. Both are 64-bit patterns.
abbrev IsNoRiskier : ℕ → ℕ → Type 0
IsNoRiskier x y =
    (x < sign_bit + sign_bit)
    × (y < sign_bit + sign_bit)
    × ((is_finite y ≡ false) ⊎ ((is_finite x ≡ true) × (rank x ≤ rank y)))

bounded_wild : (y : ℕ) → is_finite y ≡ false → rank (bounded y) ≡ sign_bit + one
unfolding bounded rank
bounded_wild y wild = rw wild refl

bounded_tame :
    (x : ℕ)
    → x < sign_bit + sign_bit
    → is_finite x ≡ true
    → rank (bounded x) ≡ max sign_bit (min (rank x) (sign_bit + one))
unfolding bounded rank lt is_nan is_finite
bounded_tame x w tame = ground arith

bounded_top : (x : ℕ) → x < sign_bit + sign_bit → rank (bounded x) ≤ sign_bit + one
bounded_top x w = (bounded-IsShare x w).2

bounded_mono : (x y : ℕ) → IsNoRiskier x y → rank (bounded x) ≤ rank (bounded y)
bounded_mono x y h = elim h.2 [
  | inl wild ↦ rw (bounded_wild y wild) (bounded_top x h.0)
  | inr (tame, o) ↦ elim (Bool-cases (is_finite y)) [
    | inr wild ↦ rw (bounded_wild y wild) (bounded_top x h.0)
    | inl tame' ↦ rw (bounded_tame x h.0 tame, bounded_tame y h.1 tame') (omega (arith, o))
  ]
]

-- In every component that counts, the second capture's risk is as bad as the first's, or worse.
abbrev pub IsNoWorse : RiskComponents → RiskComponents → Type 0
IsNoWorse r s =
    IsNoRiskier r.biometric s.biometric
    × IsNoRiskier r.tts s.tts
    × IsNoRiskier r.automation s.automation
    × IsNoRiskier r.reputation s.reputation

-- Two numbers that are not negative, in order.
abbrev Ordered : ℕ → ℕ → Type 0
Ordered x y = IsNonneg x × IsNonneg y × (rank x ≤ rank y)

lt_mono : (q x y : ℕ) → Ordered x y → lt q x ≡ true → lt q y ≡ true
unfolding lt
lt_mono q x y h l = ground arith

le_mono : (q x y : ℕ) → Ordered x y → le q x ≡ true → le q y ≡ true
unfolding le
le_mono q x y h l = ground arith

try_new-from_ppm :
    (float : Arithmetic) (biometric tts unallocated automation reputation friction reject : ℕ)
    (c : ScoringConfig)
    → try_new float biometric tts unallocated automation reputation friction reject ≡ ok c
    → c ≡ from_ppm float biometric tts automation reputation friction reject
unfolding try_new
try_new-from_ppm float b t u a p f k c h = ground arith

module _ (float : Arithmetic) (law : IsRounding float) where
  term_mono :
      (w x y : ℕ)
      → IsShare w
      → IsNoRiskier x y
      → Ordered (float.mul w (bounded x)) (float.mul w (bounded y))
  term_mono w x y s h =
      let bx = bounded-IsShare x h.0 in
      let by = bounded-IsShare y h.1 in
      (
        law.mul_nonneg w (bounded x) s bx,
        law.mul_nonneg w (bounded y) s by,
        law.mul_mono w (bounded x) (bounded y) s bx by (bounded_mono x y h),
      )

  sum_mono :
      (x x' y y' : ℕ) → Ordered x x' → Ordered y y' → Ordered (float.add x y) (float.add x' y')
  sum_mono x x' y y' h k = (
    law.add_nonneg x y h.0 k.0,
    law.add_nonneg x' y' h.1 k.1,
    law.add_mono x x' y y' h.0 k.0 h.2 k.2 h.1 k.1,
  )

  score_mono :
      (c : ScoringConfig) (r s : RiskComponents)
      → IsShare c.biometric_weight
      → IsShare c.tts_weight
      → IsShare c.automation_weight
      → IsShare c.reputation_weight
      → IsNoWorse r s
      → Ordered (score float c r) (score float c s)
  unfolding score
  score_mono c r s b t a p h =
      sum_mono _ _ _ _
        (sum_mono _ _ _ _
          (sum_mono _ _ _ _ (term_mono c.biometric_weight r.biometric s.biometric b h.0)
            (term_mono c.tts_weight r.tts s.tts t h.1))
          (term_mono c.automation_weight r.automation s.automation a h.2))
        (term_mono c.reputation_weight r.reputation s.reputation p h.3)

  accepted_shares :
      (biometric tts unallocated automation reputation friction reject : ℕ) (c : ScoringConfig)
      → try_new float biometric tts unallocated automation reputation friction reject ≡ ok c
      → IsShare c.biometric_weight
        × IsShare c.tts_weight
        × IsShare c.automation_weight
        × IsShare c.reputation_weight
  unfolding from_ppm
  accepted_shares b t u a p f k c h =
      let budget = (try_new_iff float b t u a p f k).0 (ap is_ok h) in
      rw (try_new-from_ppm float b t u a p f k c h) (
        law.share_in b (omega arith),
        law.share_in t (omega arith),
        law.share_in a (omega arith),
        law.share_in p (omega arith),
      )

  -- Under an accepted configuration a riskier capture is treated no better: if the score of the first components is rejected, or asks for another capture, then so does the score of components that are as bad or worse in each of the four that count. A component that is not finite is as bad as any. The temporal component has no influence.
  pub rejects_mono :
      (biometric tts unallocated automation reputation friction reject : ℕ) (c : ScoringConfig)
      (r s : RiskComponents)
      → try_new float biometric tts unallocated automation reputation friction reject ≡ ok c
      → IsNoWorse r s
      → (rejects c (score float c r) ≡ true → rejects c (score float c s) ≡ true)
        × (requires_friction c (score float c r) ≡ true
            → requires_friction c (score float c s) ≡ true)
  unfolding rejects requires_friction
  rejects_mono b t u a p f k c r s h w =
      let shares = accepted_shares b t u a p f k c h in
      let ordered = score_mono c r s shares.0 shares.1 shares.2 shares.3 w in
      (
        lt_mono c.reject_threshold (score float c r) (score float c s) ordered,
        le_mono c.friction_threshold (score float c r) (score float c s) ordered,
      )
