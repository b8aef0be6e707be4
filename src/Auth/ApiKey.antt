-- ===== src/Auth/ApiKey.antt =====
-- src/auth/api_key.rs: the API key of a request. The `subtle` crate's constant-time comparison of
-- two slices is a parameter.
pub mod Laws
use executor_node.Prelude.{
  ℕ, Bool, true, false, ◌&&◌, ◌||◌, Option, none, some, List, [], ◌∷◌, Bytes, nat_eq, if◌then◌else◌,
  length, replicate, Result, ok, err,
}
use executor_node.Error.{AppError, unauthorized}

module _ (ct_eq : Bytes → Bytes → Bool) where
  -- What `provided` is compared as: itself, or zeros of the expected length.
  abbrev comparison_target : Bytes → Bytes → Bytes
  comparison_target provided expected =
      if nat_eq (length provided) (length expected) then provided else replicate (length expected) 0

  unfoldable pub matches : Bytes → Bytes → Bool
  matches provided expected =
      ct_eq (comparison_target provided expected) expected
      && nat_eq (length provided) (length expected)

  unfoldable pub is_valid_api_key : Bytes → List Bytes → Bool
  unfolding matches
  is_valid_api_key provided [] = false
  is_valid_api_key provided (k ∷ keys) = matches provided k || is_valid_api_key provided keys

  -- The gate of `api_key_auth`, by the header's value: the key that the request goes on with.
  unfoldable pub api_key_auth : Option Bytes → List Bytes → Result AppError Bytes
  unfolding is_valid_api_key
  api_key_auth none keys = err unauthorized
  api_key_auth (some key) keys = if is_valid_api_key key keys then ok key else err unauthorized
