-- ===== src/Validation/Composite.antt =====
-- src/validation/composite.rs: the scoring configuration and the composite risk score.
pub mod Laws
use Prim.Native.String.{String}
use executor_node.Prelude.{
  ℕ, ◌+◌, ◌-◌, Bool, true, false, not, Option, none, some, List, [], ◌∷◌, ltb, leb, nat_eq,
  if◌then◌else◌, Result, ok, err,
}
use executor_node.Validation.Float.{Arithmetic, one, is_finite, lt, le}

abbrev pub parts_per_million : ℕ
parts_per_million = 1000000

pub data ScoringConfigError : Type 0 where
  weight_out_of_range : (field : String) → ScoringConfigError
  weight_budget_mismatch : ScoringConfigError
  threshold_out_of_range : (field : String) → ScoringConfigError
  threshold_order_invalid friction_threshold_unreachable reject_threshold_unreachable :
      ScoringConfigError

pub record ScoringConfig : Type 0 where
  pub biometric_weight : ℕ
  pub tts_weight : ℕ
  pub automation_weight : ℕ
  pub reputation_weight : ℕ
  pub friction_threshold : ℕ
  pub reject_threshold : ℕ

pub record RiskComponents : Type 0 where
  pub biometric : ℕ
  pub tts : ℕ
  pub temporal : ℕ
  pub automation : ℕ
  pub reputation : ℕ

-- A loop over named values: the name of the first that exceeds one million parts.
unfoldable pub first_over : List (String × ℕ) → Option String
first_over [] = none
first_over ((field, value) ∷ rest) =
    let later = first_over rest in if ltb parts_per_million value then some field else later

-- The constrained value of a component.
unfoldable pub bounded : ℕ → ℕ
unfolding is_finite lt
bounded value =
    if is_finite value
    then (if lt value 0 then 0 else (if lt one value then one else value))
    else one

module _ (float : Arithmetic) where
  abbrev share : ℕ → ℕ
  share ppm = float.div (float.of_nat ppm) (float.of_nat parts_per_million)

  unfoldable pub from_ppm :
      (biometric tts automation reputation friction reject : ℕ) → ScoringConfig
  from_ppm biometric tts automation reputation friction reject = record {
    biometric_weight = share biometric;
    tts_weight = share tts;
    automation_weight = share automation;
    reputation_weight = share reputation;
    friction_threshold = share friction;
    reject_threshold = share reject;
  }

  -- The tests that follow the budget's.
  unfoldable pub check_thresholds :
      (biometric tts unallocated automation reputation friction reject : ℕ)
      → Result ScoringConfigError ScoringConfig
  unfolding from_ppm first_over
  check_thresholds biometric tts unallocated automation reputation friction reject =
      elim (first_over (("friction", friction) ∷ ("rejection", reject) ∷ [])) [
        | some field ↦ err (threshold_out_of_range field)
        | none ↦
            if leb reject friction
            then err threshold_order_invalid
            else (if ltb (parts_per_million - unallocated) friction
                then err friction_threshold_unreachable
                else (if leb (parts_per_million - unallocated) reject
                    then err reject_threshold_unreachable
                    else ok (from_ppm biometric tts automation reputation friction reject)))
      ]

  unfoldable pub try_new :
      (biometric tts unallocated automation reputation friction reject : ℕ)
      → Result ScoringConfigError ScoringConfig
  unfolding first_over check_thresholds
  try_new biometric tts unallocated automation reputation friction reject =
      elim (first_over (
        ("biometric", biometric)
        ∷ ("tts", tts)
        ∷ ("unallocated", unallocated)
        ∷ ("automation", automation)
        ∷ ("reputation", reputation)
        ∷ [])) [
          | some field ↦ err (weight_out_of_range field)
          | none ↦
              if not
                (nat_eq (biometric + tts + unallocated + automation + reputation) parts_per_million)
              then err weight_budget_mismatch
              else check_thresholds biometric tts unallocated automation reputation friction reject
        ]

  unfoldable pub development_default : ScoringConfig
  unfolding from_ppm
  development_default = from_ppm 200000 200000 200000 200000 900000 parts_per_million

  unfoldable pub score : ScoringConfig → RiskComponents → ℕ
  unfolding bounded
  score c r =
      float.add
        (float.add
          (float.add (float.mul c.biometric_weight (bounded r.biometric))
            (float.mul c.tts_weight (bounded r.tts)))
          (float.mul c.automation_weight (bounded r.automation)))
        (float.mul c.reputation_weight (bounded r.reputation))

unfoldable pub rejects : ScoringConfig → ℕ → Bool
unfolding lt
rejects c value = lt c.reject_threshold value

unfoldable pub requires_friction : ScoringConfig → ℕ → Bool
unfolding le
requires_friction c value = le c.friction_threshold value
