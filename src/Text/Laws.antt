-- ===== src/Text/Laws.antt =====
-- The parts of a text that is split, and their text.
use executor_node.Prelude.{
  ℕ, ◌≡◌, refl, ap, ◌∙◌, inl, inr, List, [], ◌∷◌, ◌++◌, Bytes, arith, nat_eq, Bool-cases,
}
use executor_node.Text.{split, onto_first}

-- The parts with the separator between each two.
abbrev pub joined : ℕ → List Bytes → Bytes
joined separator [] = []
joined separator (part ∷ []) = part
joined separator (part ∷ next ∷ parts) = part ++ (separator ∷ joined separator (next ∷ parts))

joined-onto_first :
    (separator c : ℕ) (parts : List Bytes)
    → joined separator (onto_first c parts) ≡ c ∷ joined separator parts
joined-onto_first separator c [] = refl
joined-onto_first separator c (part ∷ []) = refl
joined-onto_first separator c (part ∷ next ∷ parts) = refl

onto_first_cons :
    (c : ℕ) (parts : List Bytes)
    → (part : Bytes) × (rest : List Bytes) × (onto_first c parts ≡ part ∷ rest)
onto_first_cons c [] = (c ∷ [], [], refl)
onto_first_cons c (part ∷ rest) = (c ∷ part, rest, refl)

split_cons :
    (separator : ℕ) (m : Bytes)
    → (part : Bytes) × (rest : List Bytes) × (split separator m ≡ part ∷ rest)
unfolding split
split_cons separator [] = ([], [], refl)
split_cons separator (c ∷ m) = elim (Bool-cases (nat_eq c separator)) [
  | inl same ↦ rw same ([], split separator m, refl)
  | inr other ↦ rw other (onto_first_cons c (split separator m))
]

pub joined-split : (separator : ℕ) (m : Bytes) → joined separator (split separator m) ≡ m
unfolding split
joined-split separator [] = refl
joined-split separator (c ∷ m) = elim (Bool-cases (nat_eq c separator)) [
  | inl equal ↦
      let (part, rest, cons) = split_cons separator m in
      let first : joined separator ([] ∷ split separator m)
          ≡ separator ∷ joined separator (split separator m) =
        rw cons refl in
      let same : c ≡ separator = ground arith in
      rw (equal, split, same) (first ∙ ap (λ x. separator ∷ x) (joined-split separator m))
  | inr other ↦
      rw (other, split)
        (joined-onto_first separator c (split separator m)
          ∙ ap (λ x. c ∷ x) (joined-split separator m))
]
