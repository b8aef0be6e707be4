-- ===== src/Map.antt =====
-- The concurrent maps (`DashMap`, `HashMap`) as association lists with decidable keys. Every
-- operation works on all entries of its key, so the laws need no invariant on the list.
use executor_node.Prelude.{
  ◌+◌, ◌≤◌, Bool, true, if◌then◌else◌, Option, none, some, List, [], ◌∷◌, HasTest, ◌==◌, length,
  is_some, ◌≡◌, refl, arith,
}

abbrev pub Map : Type 0 → Type 0 → Type 0
Map K V = List (K × V)

-- `Option::filter`
abbrev pub keep_if : {V : Type 0} → (V → Bool) → Option V → Option V
keep_if p none = none
keep_if p (some v) = if p v then some v else none

module _ {K V : Type 0} ⦃e : HasTest K⦄ where
  unfoldable pub get : K → Map K V → Option V
  get k [] = none
  get k ((j, v) ∷ m) = if k == j then some v else get k m

  abbrev pub contains_key : K → Map K V → Bool
  contains_key k m = is_some (get k m)

  unfoldable pub remove : K → Map K V → Map K V
  remove k [] = []
  remove k ((j, v) ∷ m) = let rest = remove k m in if k == j then rest else (j, v) ∷ rest

  unfoldable pub insert : K → V → Map K V → Map K V
  insert k v m = (k, v) ∷ remove k m

  unfoldable pub retain : (V → Bool) → Map K V → Map K V
  retain p [] = []
  retain p ((j, v) ∷ m) = let rest = retain p m in if p v then (j, v) ∷ rest else remove j rest

  pub get-remove : (k j : K) (m : Map K V) → get k (remove j m) ≡ (if k == j then none else get k m)
  unfolding get remove
  get-remove k j [] = ground arith
  get-remove k j ((i, v) ∷ m) =
      ground (arith, get-remove k j m, e.test_iff k j, e.test_iff j i, e.test_iff k i)

  pub get-insert :
      (k j : K) (v : V) (m : Map K V) → get k (insert j v m) ≡ (if k == j then some v else get k m)
  unfolding get insert
  get-insert k j v m = ground (arith, get-remove k j m)

  pub get-insert_self : (k : K) (v : V) (m : Map K V) → get k (insert k v m) ≡ some v
  get-insert_self k v m = ground (arith, get-insert k k v m, e.test_iff k k)

  pub get-retain : (p : V → Bool) (k : K) (m : Map K V) → get k (retain p m) ≡ keep_if p (get k m)
  unfolding get retain
  get-retain p k [] = refl
  get-retain p k ((j, v) ∷ m) = ground (arith, get-retain p k m, get-remove k j (retain p m))

  pub length-remove-le : (k : K) (m : Map K V) → length (remove k m) ≤ length m
  unfolding remove
  length-remove-le k [] = omega arith
  length-remove-le k ((j, v) ∷ m) = ground (arith, length-remove-le k m)

  pub length-remove_present :
      (k : K) (m : Map K V) → contains_key k m ≡ true → length (remove k m) + 1 ≤ length m
  unfolding get remove
  length-remove_present k [] h = ground arith
  length-remove_present k ((j, v) ∷ m) h =
      ground (arith, length-remove_present k m, length-remove-le k m)

  pub length-insert-le : (k : K) (v : V) (m : Map K V) → length (insert k v m) ≤ length m + 1
  unfolding insert
  length-insert-le k v m = omega (arith, length-remove-le k m)

  pub length-insert_present :
      (k : K) (v : V) (m : Map K V) → contains_key k m ≡ true → length (insert k v m) ≤ length m
  unfolding insert
  length-insert_present k v m h = omega (arith, length-remove_present k m h)

  pub length-retain-le : (p : V → Bool) (m : Map K V) → length (retain p m) ≤ length m
  unfolding retain
  length-retain-le p [] = omega arith
  length-retain-le p ((j, v) ∷ m) =
      ground (arith, length-retain-le p m, length-remove-le j (retain p m))
