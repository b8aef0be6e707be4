-- ===== src/Text.antt =====
-- What Rust's standard library reads of a text, which is its bytes.
pub mod Laws
use executor_node.Prelude.{
  ℕ, ◌+◌, ◌-◌, ◌*◌, ◌&&◌, Bool, true, false, leb, Option, none, some, List, [], ◌∷◌, Bytes, ltb,
  nat_eq, if◌then◌else◌,
}
use executor_node.Clock.{u64_mod}
use executor_node.Validation.Request.{is_digit}

-- `parse::<u64>()`: digits after an optional sign, as long as the number fits.
unfoldable pub parse_digits : ℕ → Bytes → Option ℕ
parse_digits acc [] = some acc
parse_digits acc (c ∷ rest) =
    let more = parse_digits (acc * 10 + (c - 48)) rest in
    if is_digit c && ltb (acc * 10 + (c - 48)) u64_mod then more else none

unfoldable pub parse_u64 : Bytes → Option ℕ
unfolding parse_digits
parse_u64 [] = none
parse_u64 (c ∷ []) = parse_digits 0 (c ∷ [])
parse_u64 (c ∷ d ∷ rest) =
    if nat_eq c 43 then parse_digits 0 (d ∷ rest) else parse_digits 0 (c ∷ d ∷ rest)

abbrev pub onto_first : ℕ → List Bytes → List Bytes
onto_first c [] = (c ∷ []) ∷ []
onto_first c (part ∷ parts) = (c ∷ part) ∷ parts

-- `str::split`, at one character.
unfoldable pub split : ℕ → Bytes → List Bytes
split separator [] = [] ∷ []
split separator (c ∷ rest) =
    let parts = split separator rest in
    if nat_eq c separator then [] ∷ parts else onto_first c parts

-- A byte that does not start a character.
abbrev pub is_continuation : ℕ → Bool
is_continuation c = leb 128 c && ltb c 192

abbrev pub starts_inside : Bytes → Bool
starts_inside [] = false
starts_inside (c ∷ rest) = is_continuation c
