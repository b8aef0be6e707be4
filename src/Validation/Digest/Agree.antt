-- ===== src/Validation/Digest/Agree.antt =====
-- When two encodings of src/validation/authorization.rs that start the same text encode the same.
use executor_node.Prelude.{
  ℕ, zero, suc, ◌+◌, ◌/◌, ◌%◌, ◌*◌, ◌≡◌, refl, ap, ◌∙◌, sym, Bool, true, false, Option, none, some,
  List, [], ◌∷◌, ◌++◌, Bytes, ok, err, length, arith, inl, inr, ltb, ltb→lt, map, Bool-cases,
}
use mathlib.Core.List.{append_assoc}
use mathlib.Core.Option.{map as option_map}
use executor_node.Clock.{u64_mod}
use executor_node.Error.{AppError}
use executor_node.Validation.Digest.{
  Encoded, ◌▸◌, boolean, little_endian, encode_length, string, option, each, vector, u32_mod, u8,
  u16, u32,
}

-- Two encodings that start the same text agree: what they encode is related, and the rest is the same.
abbrev pub Agree : Encoded → Encoded → Type 0 → Type 0
Agree p q K = (a b r s : Bytes) → p ≡ ok a → q ≡ ok b → a ++ r ≡ b ++ s → K × (r ≡ s)

pub weaken : {K L : Type 0} (p q : Encoded) → Agree p q K → (K → L) → Agree p q L
weaken p q h f a b r s e e' t = let k = h a b r s e e' t in (f k.0, k.1)

seq_ok :
    (p q : Encoded) (c : Bytes)
    → (p ▸ q) ≡ ok c
    → (a : Bytes) × (b : Bytes) × (p ≡ ok a) × (q ≡ ok b) × (c ≡ a ++ b)
unfolding ◌▸◌
seq_ok (err e) q c h = absurd (ground arith)
seq_ok (ok a) (err e) c h = absurd (ground arith)
seq_ok (ok a) (ok b) c h = (a, b, refl, refl, ground arith)

pub seq :
    {K L : Type 0} (p p' q q' : Encoded)
    → Agree p p' K
    → (K → Agree q q' L)
    → Agree (p ▸ q) (p' ▸ q') (K × L)
seq p p' q q' first next c d r s e e' t =
    let (a, b, ea, eb, ec) = seq_ok p q c e in
    let (a', b', ea', eb', ed) = seq_ok p' q' d e' in
    let start = first a a' (b ++ r) (b' ++ s) ea ea' (
      sym (append_assoc a b r)
      ∙ ap (λ x. x ++ r) (sym ec)
      ∙ t
      ∙ ap (λ x. x ++ s) ed
      ∙ append_assoc a' b' s) in
    let rest = next start.0 b b' r s eb eb' start.1 in ((start.0, rest.0), rest.1)

ok_agree :
    {K : Type 0} (x y : Bytes)
    → ((r s : Bytes) → x ++ r ≡ y ++ s → K × (r ≡ s))
    → Agree (ok x) (ok y) K
ok_agree x y f a b r s e e' t =
    let ex : x ≡ a = ground arith in let ey : y ≡ b = ground arith in f r s (rw (ex, ey) t)

pub swap_agree : {K : Type 0} (p q : Encoded) → Agree p q K → Agree q p K
swap_agree p q h a b r s e e' t = let k = h b a s r e' e (sym t) in (k.0, sym k.1)

-- An encoding that goes on after it disagrees.
pub ends_agree : {K : Type 0} (p p' q : Encoded) → Agree p p' ⊥ → Agree p (p' ▸ q) K
ends_agree p p' q first c d r s e e' t =
    let (a, b, ea, eb, ec) = seq_ok p' q d e' in
    absurd (first c a r (b ++ s) e ea (t ∙ ap (λ x. x ++ s) ec ∙ append_assoc a b s)).0

pub boolean_agree : (x y : Bool) → Agree (boolean x) (boolean y) (x ≡ y)
unfolding boolean
boolean_agree true true = ok_agree _ _ λ r s t. ground arith
boolean_agree true false = ok_agree _ _ λ r s t. ground arith
boolean_agree false true = ok_agree _ _ λ r s t. ground arith
boolean_agree false false = ok_agree _ _ λ r s t. ground arith

-- The number that is read back from so many bytes.
unfoldable word : ℕ → ℕ → ℕ
word zero x = 0
word (suc n) x = x % 256 + 256 * word n (x / 256)

word_start :
    (n x y : ℕ) (r s : Bytes)
    → little_endian n x ++ r ≡ little_endian n y ++ s
    → (word n x ≡ word n y) × (r ≡ s)
unfolding little_endian word
word_start zero x y r s t = (refl, t)
word_start (suc n) x y r s t =
    let here : x % 256 ≡ y % 256 = ground arith in
    let there : little_endian n (x / 256) ++ r ≡ little_endian n (y / 256) ++ s = ground arith in
    let rest = word_start n (x / 256) (y / 256) r s there in (omega (arith, here, rest.0), rest.1)

word_agree :
    (n x y : ℕ) → Agree (ok (little_endian n x)) (ok (little_endian n y)) (word n x ≡ word n y)
word_agree n x y = ok_agree (little_endian n x) (little_endian n y) (word_start n x y)

-- Numbers agree up to the word size.
pub u8_agree : (x y : ℕ) → Agree (u8 x) (u8 y) (x % 256 ≡ y % 256)
unfolding word
u8_agree x y = weaken _ _ (word_agree 1 x y) λ k. omega arith

pub u16_agree : (x y : ℕ) → Agree (u16 x) (u16 y) (x % 65536 ≡ y % 65536)
unfolding word
u16_agree x y = weaken _ _ (word_agree 2 x y) λ k. omega arith

pub u32_agree : (x y : ℕ) → Agree (u32 x) (u32 y) (x % u32_mod ≡ y % u32_mod)
unfolding word
u32_agree x y = weaken _ _ (word_agree 4 x y) λ k. omega arith

pub u64_agree :
    (x y : ℕ) → Agree (ok (little_endian 8 x)) (ok (little_endian 8 y)) (x % u64_mod ≡ y % u64_mod)
unfolding word
u64_agree x y = weaken _ _ (word_agree 8 x y) λ k. omega arith

raw_start : (x y r s : Bytes) → length x ≡ length y → x ++ r ≡ y ++ s → (x ≡ y) × (r ≡ s)
raw_start [] [] r s l t = (refl, t)
raw_start [] (y ∷ ys) r s l t = absurd (ground arith)
raw_start (x ∷ xs) [] r s l t = absurd (ground arith)
raw_start (x ∷ xs) (y ∷ ys) r s l t = ground (arith, raw_start xs ys r s)

pub raw_agree : (x y : Bytes) → length x ≡ length y → Agree (ok x) (ok y) (x ≡ y)
raw_agree x y l = ok_agree x y (λ r s. raw_start x y r s l)

pub length_agree : (x y : ℕ) → Agree (encode_length x) (encode_length y) (x ≡ y)
unfolding encode_length
length_agree x y a b r s e e' t = elim (Bool-cases (ltb x u32_mod)) [
  | inl small ↦ elim (Bool-cases (ltb y u32_mod)) [
    | inl small' ↦
        let word =
          u32_agree x y a b r s (ground (arith, small, e)) (ground (arith, small', e')) t in
        (omega (arith, word.0, ltb→lt x u32_mod small, ltb→lt y u32_mod small'), word.1)
    | inr large ↦ absurd (ground (arith, large, e'))
  ]
  | inr large ↦ absurd (ground (arith, large, e))
]

pub string_agree : (x y : Bytes) → Agree (string x) (string y) (x ≡ y)
unfolding string
string_agree x y =
    weaken _ _
      (seq (encode_length (length x)) (encode_length (length y)) (ok x) (ok y)
        (length_agree (length x) (length y)) (raw_agree x y))
      (λ k. k.1)

absent : Agree (boolean false) (boolean true) ⊥
absent = weaken _ _ (boolean_agree false true) λ k. ground arith

module _ {A B : Type 0} (encode : A → Encoded) (key : A → B)
    (agree : (x y : A) → Agree (encode x) (encode y) (key x ≡ key y)) where
  pub option_agree :
      (x y : Option A)
      → Agree (option encode x) (option encode y) (option_map key x ≡ option_map key y)
  unfolding option
  option_agree none none = weaken _ _ (boolean_agree false false) (λ k. refl)
  option_agree none (some y) = ends_agree (boolean false) (boolean true) (encode y) absent
  option_agree (some x) none =
      swap_agree _ _ (ends_agree (boolean false) (boolean true) (encode x) absent)
  option_agree (some x) (some y) =
      weaken _ _
        (seq (boolean true) (boolean true) (encode x) (encode y) (boolean_agree true true)
          (λ _. agree x y))
        (λ k. ap some k.1)

  each_agree :
      (xs ys : List A)
      → length xs ≡ length ys
      → Agree (each encode xs) (each encode ys) (map key xs ≡ map key ys)
  unfolding each
  each_agree [] [] l = ok_agree [] [] λ r s t. (refl, t)
  each_agree [] (y ∷ ys) l = absurd (ground arith)
  each_agree (x ∷ xs) [] l = absurd (ground arith)
  each_agree (x ∷ xs) (y ∷ ys) l =
      weaken _ _
        (seq (encode x) (encode y) (each encode xs) (each encode ys) (agree x y)
          (λ _. each_agree xs ys (ground arith)))
        (λ k. ground arith)

  pub vector_agree :
      (xs ys : List A) → Agree (vector encode xs) (vector encode ys) (map key xs ≡ map key ys)
  unfolding vector
  vector_agree xs ys =
      weaken _ _
        (seq (encode_length (length xs)) (encode_length (length ys)) (each encode xs)
          (each encode ys) (length_agree (length xs) (length ys)) (each_agree xs ys))
        (λ k. k.1)

pub none_agree : {K : Type 0} (e : AppError) (q : Encoded) → Agree (err e) q K
none_agree e q a b r s h = absurd (ground arith)
