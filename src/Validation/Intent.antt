-- ===== src/Validation/Intent.antt =====
-- src/validation/handler.rs: what a validation may do with the identity on the chain, and the
-- evidence that a change of its baseline needs.
pub mod Laws
use Prim.Native.String.{String}
use Prim.Native.Nat.{compare, Ordering}
use executor_node.Prelude.{
  ℕ, zero, suc, ◌+◌, ◌-◌, ◌*◌, ◌/◌, min, Bool, true, false, not, ◌&&◌, ◌||◌, Option, none, some,
  List, [], ◌∷◌, Bytes, Bytes_eq, ◌==◌, ltb, leb, nat_eq, if◌then◌else◌, Result, ok, err, length,
  take, drop, get_or, all, is_some,
}
use executor_node.Error.{
  AppError, invalid_request, solana_rpc_unavailable, projection_update_required, text,
}
use executor_node.Validation.Float.{is_finite, eq}
use executor_node.Validation.Request.{ProjectionCompatibilityEvidence}

pub data ProjectionIntent : Type 0 where
  mint update rebaseline reset : ProjectionIntent

abbrev pub writes_baseline : ProjectionIntent → Bool
writes_baseline mint = true
writes_baseline update = false
writes_baseline rebaseline = true
writes_baseline reset = true

unfoldable pub receipt_purpose : ProjectionIntent → ℕ → Option String
receipt_purpose mint projection_version = some "mint"
receipt_purpose rebaseline projection_version = some "rebaseline"
receipt_purpose reset projection_version = if ltb 0 projection_version then some "reset" else none
receipt_purpose update projection_version = none

abbrev pub identity_discriminator : Bytes
identity_discriminator = 156 ∷ 32 ∷ 87 ∷ 93 ∷ 52 ∷ 155 ∷ 248 ∷ 207 ∷ []

-- The little-endian `u16` at the version's offset, if the account is long enough.
unfoldable pub stored_version : Bytes → ℕ
stored_version data_ =
    if leb 585 (length data_) then get_or data_ 583 0 + 256 * get_or data_ 584 0 else 0

-- The `match` on the order of the versions and the reset flag.
unfoldable pub compare_versions : ℕ → ℕ → Bool → Result AppError ProjectionIntent
compare_versions requested stored reset_requested = elim (compare requested stored) [
  | Ordering.lt ↦ err projection_update_required
  | Ordering.eq ↦ ok (if reset_requested then reset else update)
  | Ordering.gt ↦
      if reset_requested
      then err (invalid_request (text "A projection upgrade must use the rebaseline path"))
      else ok rebaseline
]

unfoldable pub derive_projection_intent : Option Bytes → ℕ → Bool → Result AppError ProjectionIntent
unfolding stored_version compare_versions
derive_projection_intent none requested_version reset_requested =
    if reset_requested
    then err (invalid_request (text "A baseline reset requires an existing identity"))
    else ok mint
derive_projection_intent (some data_) requested_version reset_requested =
    if ltb (length data_) 8 || not (take 8 data_ == identity_discriminator)
    then err solana_rpc_unavailable
    else compare_versions requested_version (stored_version data_) reset_requested

unfoldable pub validate_compatibility_evidence_projection_policy :
    ℕ → Option ProjectionCompatibilityEvidence → Result AppError (Unit {0})
validate_compatibility_evidence_projection_policy projection_version evidence =
    if not (nat_eq projection_version 2) && is_some evidence
    then err (invalid_request (text "Compatibility evidence is not allowed for this projection"))
    else ok tt

-- `==` of two slices of `f64`.
unfoldable pub all_eq : List ℕ → List ℕ → Bool
unfolding eq
all_eq [] [] = true
all_eq (x ∷ xs) (y ∷ ys) = eq x y && all_eq xs ys
all_eq _ _ = false

-- `get(..170)`
abbrev audio_part : List ℕ → Option (List ℕ)
audio_part features = if leb 170 (length features) then some (take 170 features) else none

abbrev same_audio : Option (List ℕ) → Option (List ℕ) → Bool
same_audio none none = true
same_audio (some x) (some y) = all_eq x y
same_audio _ _ = false

-- The test on given evidence.
unfoldable pub is_valid_evidence : List ℕ → ProjectionCompatibilityEvidence → Bool
unfolding is_finite all_eq
is_valid_evidence primary_features e =
    nat_eq e.projection_version 1
    && (nat_eq e.feature_schema_version 4
        && (nat_eq (length e.features) 308
            && (all is_finite e.features
                && same_audio (audio_part primary_features) (audio_part e.features))))

-- The part that is for projection 2.
unfoldable pub check_evidence :
    ProjectionIntent → List ℕ → Option ProjectionCompatibilityEvidence → Result AppError (Unit {0})
unfolding is_valid_evidence
check_evidence intent primary_features none =
    if writes_baseline intent
    then err (
        invalid_request
          (text "Projection 2 baseline changes require projection 1 compatibility evidence"))
    else ok tt
check_evidence intent primary_features (some e) =
    if not (writes_baseline intent)
    then err
        (invalid_request (text "Compatibility evidence is not allowed for this projection intent"))
    else (if not (is_valid_evidence primary_features e)
        then err (invalid_request (text "Invalid projection compatibility evidence"))
        else ok tt)

unfoldable pub validate_projection_compatibility_evidence :
    ℕ
    → ProjectionIntent
    → List ℕ
    → Option ProjectionCompatibilityEvidence
    → Result AppError (Unit {0})
unfolding validate_compatibility_evidence_projection_policy check_evidence
validate_projection_compatibility_evidence projection_version intent primary_features evidence =
    elim (validate_compatibility_evidence_projection_policy projection_version evidence) [
      | err e ↦ err e
      | ok _ ↦
          if not (nat_eq projection_version 2)
          then ok tt
          else check_evidence intent primary_features evidence
    ]

-- The `i64` of eight little-endian bytes, if it is positive.
abbrev positive_i64 : ℕ → Option ℕ
positive_i64 n = if ltb 0 n && ltb n 0x8000000000000000 then some n else none

unfoldable pub from_le_bytes : Bytes → ℕ
from_le_bytes [] = 0
from_le_bytes (b ∷ rest) = b + 256 * from_le_bytes rest

-- The loop over so many slots.
unfoldable pub read_slots : ℕ → Bytes → List ℕ
unfolding from_le_bytes
read_slots zero data_ = []
read_slots (suc n) data_ =
    let later = read_slots n (drop 8 data_) in
    elim (positive_i64 (from_le_bytes (take 8 data_))) [ none ↦ later | some ts ↦ ts ∷ later ]

unfoldable pub recent_timestamps : Option Bytes → List ℕ
unfolding read_slots
recent_timestamps none = []
recent_timestamps (some data_) =
    if leb 8 (length data_) && (take 8 data_ == identity_discriminator)
    then (if leb 543 (length data_)
        then read_slots 52 (drop 127 data_)
        else (if ltb 127 (length data_)
            then read_slots ((length data_ - 127) / 8) (drop 127 data_)
            else []))
    else []
