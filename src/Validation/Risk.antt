-- ===== src/Validation/Risk.antt =====
-- src/validation/handler.rs, src/validation/audio.rs, src/reputation/mod.rs: the risks that the
-- executor computes itself.
use executor_node.Prelude.{
  ℕ, Bool, true, false, not, ◌&&◌, Option, none, some, List, [], ◌∷◌, if◌then◌else◌, length,
}
use executor_node.Validation.Float.{Arithmetic, half, one, at_most, lt, le}
use executor_node.Validation.Request.{ClientSignals, AutomationSignals, CaptureSignals}

-- `crate::reputation::WalletReputation`, without what is only logged.
pub record WalletReputation : Type 0 where
  pub sol_lamports : ℕ
  pub signature_count : ℕ
  pub sybil_risk : ℕ

pub record AcousticEvaluation : Type 0 where
  pub risk_score : ℕ
  pub virtual_device_detected : Bool
  pub flatness_out_of_bounds : Bool
  pub centroid_out_of_bounds : Bool

-- `!(low..=high).contains(&value)`, for a value that is there.
abbrev is_outside : ℕ → ℕ → Option ℕ → Bool
is_outside low high none = false
is_outside low high (some value) = not (le low value && le value high)

module _ (float : Arithmetic) where
  abbrev raise : Bool → ℕ → ℕ → ℕ
  raise flagged amount risk = if flagged then at_most (float.add risk amount) one else risk

  unfoldable pub evaluate_acoustic_realism : Option CaptureSignals → AcousticEvaluation
  unfolding at_most le
  evaluate_acoustic_realism none = record {
    risk_score = 0;
    virtual_device_detected = false;
    flatness_out_of_bounds = false;
    centroid_out_of_bounds = false;
  }
  evaluate_acoustic_realism (some c) =
      let flat = is_outside 0x3f8eb851eb851eb8 0x3feb333333333333 c.flatness in
      let off = is_outside 0x4059000000000000 0x40b7700000000000 c.centroid in
      record {
        risk_score =
            raise off 0x3fe3333333333333
              (raise flat 0x3fe999999999999a (if c.virtual_device then one else 0));
        virtual_device_detected = c.virtual_device;
        flatness_out_of_bounds = flat;
        centroid_out_of_bounds = off;
      }

  abbrev is_empty : {A : Type 0} → List A → Bool
  is_empty [] = true
  is_empty (x ∷ xs) = false

  abbrev signals_risk : AutomationSignals → ℕ
  signals_risk a =
      if a.webdriver
      then one
      else (if not (is_empty a.tells)
          then at_most (float.mul (float.of_nat (length a.tells)) half) one
          else 0)

  -- The acoustic evaluation is logged only, so it does not stand here.
  unfoldable pub automation_risk : Option ClientSignals → ℕ
  unfolding at_most
  automation_risk none = 0
  automation_risk (some signals) = elim signals.automation [ none ↦ 0 | some a ↦ signals_risk a ]

  abbrev prior : WalletReputation → ℕ
  prior rep =
      let sol_score = at_most (float.div (float.of_nat rep.sol_lamports) 0x4197d78400000000) one in
      let activity_score =
        at_most (float.div (float.of_nat rep.signature_count) 0x4024000000000000) one in
      float.add (float.mul half sol_score) (float.mul half activity_score)

  unfoldable pub reputation_risk : Option WalletReputation → ℕ
  unfolding at_most lt
  reputation_risk none = half
  reputation_risk (some rep) =
      let risk = float.sub one (prior rep) in
      if lt 0 rep.sybil_risk then at_most (float.add risk half) one else risk
