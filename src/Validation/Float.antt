-- ===== src/Validation/Float.antt =====
-- IEEE double-precision numbers as their 64 bits, with the tests and comparisons of Rust's `f64`.
-- The rounding operations are a parameter of the code that uses them.
use executor_node.Prelude.{ℕ, ◌+◌, ◌-◌, ◌%◌, Bool, not, ◌&&◌, ltb, leb, nat_eq, if◌then◌else◌}

abbrev pub sign_bit : ℕ
sign_bit = 0x8000000000000000

abbrev pub infinity : ℕ
infinity = 0x7ff0000000000000

abbrev pub half : ℕ
half = 0x3fe0000000000000

abbrev pub one : ℕ
one = 0x3ff0000000000000

unfoldable pub is_finite : ℕ → Bool
is_finite x = ltb (x % sign_bit) infinity

unfoldable pub is_nan : ℕ → Bool
is_nan x = ltb infinity (x % sign_bit)

-- The place of a number that is no NaN in the order: both zeros have the same.
unfoldable pub rank : ℕ → ℕ
rank x = if ltb x sign_bit then sign_bit + x else sign_bit - x % sign_bit

-- `<`, `<=` and `==`: false with a NaN.
unfoldable pub lt : ℕ → ℕ → Bool
unfolding is_nan rank
lt x y = not (is_nan x) && (not (is_nan y) && ltb (rank x) (rank y))

unfoldable pub le : ℕ → ℕ → Bool
unfolding is_nan rank
le x y = not (is_nan x) && (not (is_nan y) && leb (rank x) (rank y))

unfoldable pub eq : ℕ → ℕ → Bool
unfolding is_nan rank
eq x y = not (is_nan x) && (not (is_nan y) && nat_eq (rank x) (rank y))

-- `f64::min`, for a second argument that is no NaN.
unfoldable pub at_most : ℕ → ℕ → ℕ
unfolding lt is_nan
at_most x y = if is_nan x then y else (if lt y x then y else x)

-- The operations that round.
pub record Arithmetic : Type 0 where
  pub add : ℕ → ℕ → ℕ
  pub sub : ℕ → ℕ → ℕ
  pub mul : ℕ → ℕ → ℕ
  pub div : ℕ → ℕ → ℕ
  -- `as f64` and `f64::from`
  pub of_nat : ℕ → ℕ
