-- ===== src/Auth/ApiKey/Laws.antt =====
-- Which keys src/auth/api_key.rs accepts.
use executor_node.Prelude.{
  ◌≡◌, ◌↔◌, ◌⊎◌, inl, inr, Bool, true, Option, none, some, List, [], ◌∷◌, Bytes, arith, length, ok,
  Bool-cases, ap, nat_eq,
}
use executor_node.Auth.ApiKey.{matches, is_valid_api_key, api_key_auth}

-- The key is one of the list.
unfoldable pub IsOneOf : Bytes → List Bytes → Type 0
IsOneOf key [] = ⊥
IsOneOf key (k ∷ keys) = (key ≡ k) ⊎ IsOneOf key keys

module _ (ct_eq : Bytes → Bytes → Bool)
    (ct_eq_iff : (a b : Bytes) → length a ≡ length b → (ct_eq a b ≡ true) ↔ (a ≡ b)) where
  matches_iff : (key k : Bytes) → (matches ct_eq key k ≡ true) ↔ (key ≡ k)
  unfolding matches
  matches_iff key k = elim (Bool-cases (nat_eq (length key) (length k))) [
    | inl same ↦ ground (arith, same, ct_eq_iff key k (ground arith))
    | inr other ↦ (λ h. ground (arith, other), λ e. ground (arith, other, ap length e))
  ]

  is_valid_api_key_iff :
      (key : Bytes) (keys : List Bytes)
      → (is_valid_api_key ct_eq key keys ≡ true) ↔ IsOneOf key keys
  unfolding is_valid_api_key IsOneOf
  is_valid_api_key_iff key [] = (λ h. cc, λ h. absurd h)
  is_valid_api_key_iff key (k ∷ keys) =
      ground (arith, matches_iff key k, is_valid_api_key_iff key keys)

  -- A request is let through exactly when its header has a key of the list, and goes on with that key.
  pub api_key_auth_iff :
      (header : Option Bytes) (keys : List Bytes) (key : Bytes)
      → (api_key_auth ct_eq header keys ≡ ok key) ↔ ((header ≡ some key) × IsOneOf key keys)
  unfolding api_key_auth
  api_key_auth_iff none keys key = (λ h. cc, λ h. cc h.0)
  api_key_auth_iff (some k) keys key =
      ground (arith, is_valid_api_key_iff k keys, is_valid_api_key_iff key keys)
