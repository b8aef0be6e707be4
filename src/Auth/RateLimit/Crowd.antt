-- ===== src/Auth/RateLimit/Crowd.antt =====
-- How many keys a map of src/auth/rate_limit.rs can come to hold by the entries of given keys.
use executor_node.Prelude.{
  ℕ, ◌+◌, ◌≤◌, ◌≡◌, refl, sym, ap, ◌∙◌, subst, inl, inr, Bool, true, false, HasTest, arith, List,
  [], ◌∷◌, ◌++◌, Bool-cases, if◌then◌else◌, ◌==◌, ◌||◌, length,
}
use executor_node.Map.{
  Map, get, contains_key, insert, remove, get-insert, get-remove, length-insert-le,
  length-insert_present, length-remove-le, length-remove_present,
}

module _ {K V : Type 0} ⦃e : HasTest K⦄ where
  remove_absent : (k : K) (m : Map K V) → contains_key k m ≡ false → remove k m ≡ m
  unfolding get remove
  remove_absent k [] h = refl
  remove_absent k ((j, v) ∷ m) h = elim (Bool-cases (k == j)) [
    | inl same ↦ absurd (ground (arith, same))
    | inr other ↦ rw other (ap (λ rest. (j, v) ∷ rest) (remove_absent k m (rw (other, get) at h)))
  ]

  pub length-insert_absent :
      (k : K) (v : V) (m : Map K V)
      → contains_key k m ≡ false
      → length (insert k v m) ≡ length m + 1
  unfolding insert
  length-insert_absent k v m h = rw (remove_absent k m h) (omega arith)

  module _ (x : V) where
    -- The map with an entry for the key.
    abbrev pub add : K → Map K V → Map K V
    add k m = if contains_key k m then m else insert k x m

    -- The size of the map once all keys have an entry.
    unfoldable pub crowd : List K → Map K V → ℕ
    crowd [] m = length m
    crowd (k ∷ keys) m = crowd keys (add k m)

    contains_key-add :
        (j k : K) (m : Map K V) → contains_key j (add k m) ≡ (j == k || contains_key j m)
    contains_key-add j k m = ground (arith, get-insert j k x m, e.test_iff j k)

    length-add-le :
        (k : K) (m m' : Map K V)
        → contains_key k m ≡ contains_key k m'
        → length m ≤ length m'
        → length (add k m) ≤ length (add k m')
    length-add-le k m m' same h = elim (Bool-cases (contains_key k m)) [
      | inl present ↦ rw (present, sym same ∙ present) h
      | inr absent ↦
          rw (absent, sym same ∙ absent)
            (omega (
              arith,
              h,
              length-insert_absent k x m absent,
              length-insert_absent k x m' (sym same ∙ absent),
            ))
    ]

    pub crowd-le :
        (keys : List K) (m m' : Map K V)
        → ((j : K) → contains_key j m ≡ contains_key j m')
        → length m ≤ length m'
        → crowd keys m ≤ crowd keys m'
    unfolding crowd
    crowd-le [] m m' same h = h
    crowd-le (k ∷ keys) m m' same h =
        crowd-le keys (add k m) (add k m')
          (λ j.
            contains_key-add j k m ∙ ap (λ b. j == k || b) (same j) ∙ sym (contains_key-add j k m'))
          (length-add-le k m m' (same k) h)

    pub crowd-length : (keys : List K) (m : Map K V) → crowd keys m ≤ length m + length keys
    unfolding crowd
    crowd-length [] m = omega arith
    crowd-length (k ∷ keys) m = elim (Bool-cases (contains_key k m)) [
      | inl present ↦ rw present (omega (arith, crowd-length keys m))
      | inr absent ↦
          rw absent (omega (arith, crowd-length keys (insert k x m), length-insert-le k x m))
    ]

    contains_key-remove :
        (j a : K) (m : Map K V)
        → contains_key j (remove a m) ≡ (if j == a then false else contains_key j m)
    contains_key-remove j a m = ground (arith, get-remove j a m)

    -- An entry that is made again after it was dropped.
    length-insert-remove :
        (a : K) (m : Map K V) → length (insert a x (remove a m)) ≤ length (add a m)
    unfolding insert
    length-insert-remove a m = elim (Bool-cases (contains_key a m)) [
      | inl present ↦
          rw present
            (omega (arith, length-remove-le a (remove a m), length-remove_present a m present))
      | inr absent ↦ rw (absent, remove_absent a m absent) (omega (arith, length-remove-le a m))
    ]

    flipped : (a k : K) (b : Bool) → b ≡ false → (k == a) ≡ b → (a == k) ≡ false
    flipped a k b h g = ground (arith, h, g, e.test_iff a k, e.test_iff k a)

    -- The entry of another key.
    length-insert_other :
        (k a : K) (m : Map K V)
        → (k == a) ≡ false
        → contains_key k m ≡ false
        → length (insert k x (remove a m)) ≤ length (remove a (insert k x m))
    unfolding insert remove
    length-insert_other k a m differ absent =
        rw (flipped a k (k == a) differ refl, remove_absent k m absent)
          (omega (arith, length-remove-le k (remove a m)))

    crowd-again :
        (keys : List K) (a : K) (m : Map K V)
        → crowd keys (add a (remove a m)) ≤ crowd keys (add a m)
    crowd-again keys a m =
        let gone : contains_key a (remove a m) ≡ false =
          ground (arith, contains_key-remove a a m, e.test_iff a a) in
        crowd-le keys (add a (remove a m)) (add a m)
          (λ j. ground (
            arith,
            contains_key-add j a (remove a m),
            contains_key-remove j a m,
            contains_key-add j a m,
          ))
          (rw gone (length-insert-remove a m))

    -- To drop an entry makes room.
    pub crowd-remove :
        (keys : List K) (a : K) (m : Map K V) → crowd keys (remove a m) ≤ crowd keys m
    unfolding crowd
    crowd-remove [] a m = length-remove-le a m
    crowd-remove (k ∷ keys) a m = elim (Bool-cases (k == a)) [
      | inl same ↦ rw ((e.test_iff k a).0 same) (crowd-again keys a m)
      | inr other ↦
          let kept : contains_key k (remove a m) ≡ contains_key k m =
            ground (arith, other, contains_key-remove k a m) in
          elim (Bool-cases (contains_key k m)) [
            | inl present ↦ rw (kept ∙ present, present) (crowd-remove keys a m)
            | inr absent ↦
                let swapped =
                  crowd-le keys (insert k x (remove a m)) (remove a (insert k x m))
                    (λ j. ground (
                      arith,
                      other,
                      get-insert j k x (remove a m),
                      get-remove j a m,
                      get-remove j a (insert k x m),
                      get-insert j k x m,
                      e.test_iff j k,
                      e.test_iff j a,
                      e.test_iff k a,
                    ))
                    (length-insert_other k a m other absent) in
                rw (kept ∙ absent, absent)
                  (omega (arith, swapped, crowd-remove keys a (insert k x m)))
          ]
    ]

    length-insert_both :
        (k j : K) (y : V) (m : Map K V)
        → (k == j) ≡ true
        → contains_key j m ≡ false
        → contains_key k m ≡ false
        → length m + 1 ≤ length (insert k y (insert j x m))
    unfolding insert remove
    length-insert_both k j y m same absent missing =
        rw (same, remove_absent j m absent, remove_absent k m missing) (omega arith)

    length-insert_two :
        (k j : K) (y : V) (m : Map K V)
        → (k == j) ≡ false
        → contains_key j m ≡ false
        → length (insert k y m) + 1 ≤ length (insert k y (insert j x m))
    unfolding insert remove
    length-insert_two k j y m differ absent = rw (differ, remove_absent j m absent) (omega arith)

    length-add_insert :
        (j k : K) (y : V) (m : Map K V)
        → length (add j (insert k y m)) ≤ length (insert k y (add j m))
    length-add_insert j k y m = elim (Bool-cases (contains_key j m)) [
      | inl present ↦
          let there : contains_key j (insert k y m) ≡ true =
            ground (arith, present, get-insert j k y m) in
          rw (present, there) (omega arith)
      | inr absent ↦ elim (Bool-cases (j == k)) [
        | inl same ↦
            let there : contains_key j (insert k y m) ≡ true =
              ground (arith, same, get-insert j k y m) in
            let turned : (k == j) ≡ true = ground (arith, same, e.test_iff j k, e.test_iff k j) in
            let missing : contains_key k m ≡ false =
              subst (λ i. contains_key i m ≡ false) ((e.test_iff j k).0 same) absent in
            rw (absent, there, length-insert_absent k y m missing)
              (length-insert_both k j y m turned absent missing)
        | inr other ↦
            let away : contains_key j (insert k y m) ≡ false =
              ground (arith, other, absent, get-insert j k y m) in
            rw (absent, away, length-insert_absent j x (insert k y m) away)
              (length-insert_two k j y m (flipped k j (j == k) other refl) absent)
      ]
    ]

    -- One of the keys gets its entry.
    pub crowd-enters :
        (before after : List K) (k : K) (y : V) (m : Map K V)
        → crowd (before ++ after) (insert k y m) ≤ crowd (before ++ (k ∷ after)) m
    unfolding crowd
    crowd-enters [] after k y m =
        crowd-le after (insert k y m) (add k m)
          (λ j. ground (arith, get-insert j k y m, contains_key-add j k m))
          (elim (Bool-cases (contains_key k m)) [
            | inl present ↦ rw present (length-insert_present k y m present)
            | inr absent ↦ rw absent (
                omega (arith, length-insert_absent k y m absent, length-insert_absent k x m absent))
          ])
    crowd-enters (j ∷ before) after k y m =
        let entered =
          crowd-le (before ++ after) (add j (insert k y m)) (insert k y (add j m))
            (λ i. ground (
              arith,
              contains_key-add i j (insert k y m),
              contains_key-add i j m,
              get-insert i k y m,
              get-insert i k y (add j m),
            ))
            (length-add_insert j k y m) in
        omega (arith, entered, crowd-enters before after k y (add j m))
