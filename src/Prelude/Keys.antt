-- ===== src/Prelude/Keys.antt =====
-- Decidable keys. A byte string (an API key, a wallet address, a nonce) is a list of numbers.
use Prim.Native.Nat.{ℕ}
use Prim.Native.Char.{code}
use Prim.Native.String.{String}
use mathlib.Core.Path.{◌≡◌}
use mathlib.Core.Logic.{◌↔◌}
use mathlib.Core.Bool.{Bool, true, false, ◌&&◌}
use mathlib.Core.List.{List, [], ◌∷◌}
use native.Mathlib.Omega.{arith}
use executor_node.Prelude.Tests.{nat_eq, nat_eq_iff}

-- A type of keys: a test, true of equal keys alone.
pub record HasTest {κ} (K : Type κ) : Type κ where
  pub test : K → K → Bool
  pub test_iff : (k j : K) → (test k j ≡ true) ↔ (k ≡ j)

infix 50 ◌==◌
abbrev pub ◌==◌ {κ} : {K : Type κ} ⦃keys : HasTest K⦄ → K → K → Bool
◌==◌ ⦃keys⦄ k j = keys.test k j

instance abbrev pub ℕ_eq : HasTest ℕ
ℕ_eq = record { test = nat_eq; test_iff = nat_eq_iff }

abbrev pub Bytes : Type 0
Bytes = List ℕ

unfoldable pub bytes_eq : Bytes → Bytes → Bool
bytes_eq [] [] = true
bytes_eq (x ∷ xs) (y ∷ ys) = nat_eq x y && bytes_eq xs ys
bytes_eq _ _ = false

pub bytes_eq_iff : (a b : Bytes) → (bytes_eq a b ≡ true) ↔ (a ≡ b)
unfolding bytes_eq
bytes_eq_iff [] [] = ground arith
bytes_eq_iff [] (y ∷ ys) = ground arith
bytes_eq_iff (x ∷ xs) [] = ground arith
bytes_eq_iff (x ∷ xs) (y ∷ ys) = ground (arith, bytes_eq_iff xs ys)

instance abbrev pub Bytes_eq : HasTest Bytes
Bytes_eq = record { test = bytes_eq; test_iff = bytes_eq_iff }

-- The bytes of an ASCII text.
abbrev pub bytes : String → Bytes
bytes String.[] = []
bytes (String.◌∷◌ c s) = code c ∷ bytes s
