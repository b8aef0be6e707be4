-- ===== src/Attestation/Sas/Layout.antt =====
-- The layouts that src/attestation/sas.rs documents, and the ranges of a byte string.
use mathlib.Core.List.{append_assoc}
use executor_node.Prelude.{
  ℕ, zero, suc, ◌+◌, ◌-◌, ◌*◌, ◌/◌, ◌%◌, ◌≤◌, ◌<◌, ◌≡◌, refl, sym, ap, ◌∙◌, subst, inl, inr, true,
  ◌&&◌, some, List, [], ◌∷◌, ◌++◌, Bytes, All, arith, leb, ok, length, take, drop, length-append,
  length-take, take-append, drop-append, Bool-cases, Option-cases, Result-cases,
}
use executor_node.Validation.Digest.{little_endian}
use executor_node.Validation.Intent.{from_le_bytes}
use executor_node.Attestation.Sas.{get_range, read_signers}

abbrev pub IsByte : ℕ → Type 0
IsByte b = b < 256

abbrev pub IsKey : Bytes → Type 0
IsKey k = length k ≡ 32

-- Byte strings one after the other, before the rest.
abbrev pub flatten : List Bytes → Bytes → Bytes
flatten [] rest = rest
flatten (k ∷ ks) rest = k ++ flatten ks rest

-- A credential account: the discriminator, the authority, the name and the signers.
abbrev pub credential : Bytes → Bytes → List Bytes → Bytes → Bytes
credential authority name signers trailing =
    (0 ∷ authority)
    ++ (little_endian 4 (length name)
        ++ (name ++ (little_endian 4 (length signers) ++ flatten signers trailing)))

-- The fields of an identity account that come before the trust score, and that score.
abbrev pub identity : Bytes → Bytes → Bytes → Bytes → Bytes → Bytes → Bytes → Bytes
identity discriminator owner creation verified count trust trailing =
    discriminator ++ (owner ++ (creation ++ (verified ++ (count ++ (trust ++ trailing)))))

pub take-append-drop : (n : ℕ) (xs : Bytes) → take n xs ++ drop n xs ≡ xs
take-append-drop zero xs = refl
take-append-drop (suc n) [] = refl
take-append-drop (suc n) (x ∷ xs) = ap (◌∷◌ x) (take-append-drop n xs)

shift : (m n : ℕ) → suc (m + n) ≡ suc m + n
shift m n = omega arith

drop_nil : (n : ℕ) → ◌≡◌ {A = Bytes} [] (drop n [])
drop_nil zero = refl
drop_nil (suc n) = refl

pub drop-drop : (n m : ℕ) (xs : Bytes) → drop n (drop m xs) ≡ drop (m + n) xs
drop-drop n zero xs = ap (λ m. drop m xs) (omega arith)
drop-drop zero (suc m) [] = drop_nil (suc m + zero)
drop-drop (suc n) (suc m) [] = drop_nil (suc m + suc n)
drop-drop n (suc m) (x ∷ xs) = drop-drop n m xs ∙ ap (λ k. drop k (x ∷ xs)) (shift m n)

pub length-drop : (n : ℕ) (xs : Bytes) → length (drop n xs) ≡ length xs - n
length-drop zero xs = omega arith
length-drop (suc n) [] = omega arith
length-drop (suc n) (x ∷ xs) = omega (arith, length-drop n xs)

pub All-drop : (n : ℕ) (xs : Bytes) → All IsByte xs → All IsByte (drop n xs)
All-drop zero xs h = h
All-drop (suc n) [] h = tt
All-drop (suc n) (x ∷ xs) (p, h) = All-drop n xs h

pub All-prefix : (xs ys : Bytes) → All IsByte (xs ++ ys) → All IsByte xs
All-prefix [] ys h = tt
All-prefix (x ∷ xs) ys (p, h) = (p, All-prefix xs ys h)

pub length-little_endian : (n v : ℕ) → length (little_endian n v) ≡ n
unfolding little_endian
length-little_endian zero v = refl
length-little_endian (suc n) v = ap suc (length-little_endian n (v / 256))

pub little_endian-from_le_bytes :
    (b : Bytes) → All IsByte b → little_endian (length b) (from_le_bytes b) ≡ b
unfolding little_endian from_le_bytes
little_endian-from_le_bytes [] h = refl
little_endian-from_le_bytes (x ∷ xs) (p, h) =
    let digit : (x + 256 * from_le_bytes xs) % 256 ≡ x = omega arith in
    let rest : (x + 256 * from_le_bytes xs) / 256 ≡ from_le_bytes xs = omega arith in
    rw (digit, rest, little_endian-from_le_bytes xs h) refl

pub from_le_bytes-little_endian2 : (v : ℕ) → v < 65536 → from_le_bytes (little_endian 2 v) ≡ v
unfolding little_endian from_le_bytes
from_le_bytes-little_endian2 v h = omega arith

pub from_le_bytes-little_endian4 : (v : ℕ) → v < 4294967296 → from_le_bytes (little_endian 4 v) ≡ v
unfolding little_endian from_le_bytes
from_le_bytes-little_endian4 v h = omega arith

pub from_le_bytes-little_endian8 :
    (v : ℕ) → v < 18446744073709551616 → from_le_bytes (little_endian 8 v) ≡ v
unfolding little_endian from_le_bytes
from_le_bytes-little_endian8 v h = omega arith

pub from_le_bytes-lt4 : (b : Bytes) → length b ≡ 4 → All IsByte b → from_le_bytes b < 4294967296
unfolding from_le_bytes
from_le_bytes-lt4 (a ∷ b ∷ c ∷ d ∷ []) h (p, (q, (r, (s, _)))) = omega arith
from_le_bytes-lt4 [] h k = absurd (omega arith)
from_le_bytes-lt4 (a ∷ []) h k = absurd (omega arith)
from_le_bytes-lt4 (a ∷ b ∷ []) h k = absurd (omega arith)
from_le_bytes-lt4 (a ∷ b ∷ c ∷ []) h k = absurd (omega arith)
from_le_bytes-lt4 (a ∷ b ∷ c ∷ d ∷ e ∷ xs) h k = absurd (omega arith)

-- A range between two parts is what stands between them.
pub get_range-append :
    (p m r : Bytes) (a b : ℕ)
    → length p ≡ a
    → a + length m ≡ b
    → get_range (p ++ (m ++ r)) a b ≡ some m
unfolding get_range
get_range-append p m r a b h k =
    let fits : leb b (length (p ++ (m ++ r))) ≡ true =
      ground (arith, length-append p (m ++ r), length-append m r) in
    let ordered : leb a b ≡ true = ground arith in
    let size : b - a ≡ length m = omega arith in
    rw (fits, ordered, size, ← h, drop-append p (m ++ r), take-append m r) refl

-- A range that is read splits what stands from its start.
pub get_range_splits :
    (d m : Bytes) (a b : ℕ)
    → get_range d a b ≡ some m
    → (a ≤ b) × (b ≤ length d) × (length m ≡ b - a) × (drop a d ≡ m ++ drop b d)
unfolding get_range
get_range_splits d m a b h = elim (Bool-cases (leb a b && leb b (length d))) [
  | inr no_range ↦ absurd (ground (arith, rw no_range at h))
  | inl range ↦
      let m' : take (b - a) (drop a d) ≡ m = ground (arith, rw range at h) in
      let ordered : (a ≤ b) × (b ≤ length d) = ground arith in
      let size : length (take (b - a) (drop a d)) ≡ b - a =
        omega (arith, length-take (b - a) (drop a d), length-drop a d, ordered) in
      let whole : a + (b - a) ≡ b = omega (arith, ordered) in
      (
        ordered.0,
        ordered.1,
        ap length (sym m') ∙ size,
        sym (take-append-drop (b - a) (drop a d))
            ∙ ap (λ x. take (b - a) (drop a d) ++ x)
                (drop-drop (b - a) a d ∙ ap (λ n. drop n d) whole)
            ∙ ap (λ x. x ++ drop b d) m',
      )
]

-- The signers that stand after a prefix are read.
pub read_signers-flatten :
    (keys : List Bytes) (p rest : Bytes) (offset : ℕ)
    → length p ≡ offset
    → All IsKey keys
    → read_signers (length keys) offset (p ++ flatten keys rest) ≡ ok keys
unfolding read_signers
read_signers-flatten [] p rest offset h k = refl
read_signers-flatten (key ∷ keys) p rest offset h (size, k) =
    let here : get_range (p ++ (key ++ flatten keys rest)) offset (offset + 32) ≡ some key =
      get_range-append p key (flatten keys rest) offset (offset + 32) h (omega arith) in
    let later : read_signers (length keys) (offset + 32) (p ++ (key ++ flatten keys rest))
        ≡ ok keys =
      subst (λ x. read_signers (length keys) (offset + 32) x ≡ ok keys)
        (append_assoc p key (flatten keys rest))
        (read_signers-flatten keys (p ++ key) rest (offset + 32)
          (omega (arith, length-append p key)) k) in
    rw (here, later, read_signers) refl

-- What is read as signers stands there.
pub read_signers_splits :
    (n offset : ℕ) (d : Bytes) (keys : List Bytes)
    → read_signers n offset d ≡ ok keys
    → (length keys ≡ n) × All IsKey keys × (drop offset d ≡ flatten keys (drop (offset + 32 * n) d))
unfolding read_signers
read_signers_splits zero offset d keys h =
    let e : keys ≡ [] = ground arith in
    let same : offset ≡ offset + 32 * 0 = omega arith in rw e (refl, tt, ap (λ n. drop n d) same)
read_signers_splits (suc n) offset d keys h =
    elim (Option-cases (get_range d offset (offset + 32))) [
      | inl short ↦ absurd (ground (arith, rw (short, read_signers) at h))
      | inr (key, here) ↦ elim (Result-cases (read_signers n (offset + 32) d)) [
        | inr (e, refused) ↦ absurd (ground (arith, rw (here, refused, read_signers) at h))
        | inl (more, later) ↦
            let e : keys ≡ key ∷ more = ground (arith, rw (here, later, read_signers) at h) in
            let (ordered, fits, size, split) = get_range_splits d key offset (offset + 32) here in
            let (count, sizes, tail_split) = read_signers_splits n (offset + 32) d more later in
            let last : offset + 32 + 32 * n ≡ offset + 32 * suc n = omega arith in
            rw e (
              ap suc count,
              (omega arith, sizes),
              split ∙ ap (λ x. key ++ x) (tail_split ∙ ap (λ m. flatten more (drop m d)) last),
            )
      ]
    ]
