-- ===== src/Auth/RateLimit/Race.antt =====
-- Requests that run at once through a limiter of src/auth/rate_limit.rs, while a sweep runs. Each
-- step is one access to the map. The step of the first test is the read that decides it, and the
-- length of the map counts as one read. A sweep drops the stale entries one by one.
use executor_node.Prelude.{
  ℕ, ◌+◌, ◌-◌, ltb, false, ◌≤◌, ◌<◌, ◌≡◌, ap, ◌∙◌, inl, inr, true, some, HasTest, arith, List, [],
  ◌∷◌, ◌++◌, Bool-cases, length, length-append,
}
use executor_node.Map.{
  Map, get, contains_key, insert, remove, get-insert, length-insert-le, length-insert_present,
}
use executor_node.Auth.RateLimit.Crowd.{
  crowd, crowd-le, crowd-length, crowd-enters, crowd-remove, length-insert_absent,
}
use executor_node.Auth.RateLimit.{
  Governor, Limiters, Entry, limiter_of, passes_guard, enter_entry, spend_cell,
}

module _ (g : Governor) (K : Type 0) ⦃e : HasTest K⦄ where
  -- The limiter, and the keys of the requests that have passed the test and have not yet entered.
  pub record Racing : Type 0 where
    pub limiters : Limiters g K
    pub inside : List K

  -- At most `threads` requests are between the test and the entry at once.
  pub data Step (most threads : ℕ) (s : Racing) : Racing → Type 0 where
    arrives :
        (k : K)
        → length s.inside < threads
        → passes_guard g most s.limiters k ≡ true
        → Step most threads s (record s { inside = k ∷ s.inside })
    enters :
        (now : ℕ) (k : K) (before after : List K)
        → s.inside ≡ before ++ (k ∷ after)
        → Step most threads s
            (record { limiters = enter_entry g s.limiters now k; inside = before ++ after })
    spends :
        (now : ℕ) (k : K) (x : Entry g)
        → get k s.limiters.limiters ≡ some x
        → Step most threads s (record s { limiters = (spend_cell g s.limiters now k x).0 })
    drops :
        (now ttl : ℕ) (k : K) (x : Entry g)
        → get k s.limiters.limiters ≡ some x
        → ltb (now - x.1) ttl ≡ false
        → Step most threads s
            (record s { limiters = record s.limiters { limiters = remove k s.limiters.limiters } })

  pub data Reach (most threads : ℕ) (r : Limiters g K) : Racing → Type 0 where
    start : Reach most threads r (record { limiters = r; inside = [] })
    later : {s t : Racing} → Reach most threads r s → Step most threads s t → Reach most threads r t

  -- What stands for the entry of a request that has not yet entered.
  abbrev blank : Entry g
  blank = (g.direct 0, 0)

  -- There is room for all that are inside.
  abbrev HasRoom : ℕ → ℕ → Racing → Type 0
  HasRoom most threads s =
      (crowd blank s.inside s.limiters.limiters + 1 ≤ most + threads) × (length s.inside ≤ threads)

  Step-HasRoom :
      {most threads : ℕ} {s t : Racing}
      → Step most threads s t
      → HasRoom most threads s
      → HasRoom most threads t
  unfolding passes_guard enter_entry spend_cell crowd
  Step-HasRoom {most} {threads} {s} (arrives k free passed) (room, few) =
      let m = s.limiters.limiters in
      (
        elim (Bool-cases (contains_key k m)) [
          | inl present ↦ rw present room
          | inr absent ↦
              let below : length m < most = ground (arith, absent, passed) in
              rw absent (
                omega (
                  arith,
                  free,
                  below,
                  crowd-length blank s.inside (insert k blank m),
                  length-insert-le k blank m,
                ))
        ],
        omega (arith, free),
      )
  Step-HasRoom {most} {threads} {s} (enters now k before after there) (room, few) =
      let m = s.limiters.limiters in
      let x : Entry g = (limiter_of g s.limiters (get k m), now) in
      let sizes = ap length there ∙ length-append before (k ∷ after) in
      (
        omega (
          arith,
          room,
          ap (λ keys. crowd blank keys m) there,
          crowd-enters blank before after k x m,
        ),
        omega (arith, few, sizes, length-append before after),
      )
  Step-HasRoom {most} {threads} {s} (spends now k (lim, seen) known) (room, few) =
      let m = s.limiters.limiters in
      let x : Entry g = ((g.check lim now).0, seen) in
      let present : contains_key k m ≡ true = ground (arith, known) in
      let same =
        crowd-le blank s.inside (insert k x m) m
          (λ j. ground (arith, present, get-insert j k x m, e.test_iff j k))
          (length-insert_present k x m present) in
      (omega (arith, room, same), few)
  Step-HasRoom {most} {threads} {s} (drops now ttl k x known stale) (room, few) =
      (omega (arith, room, crowd-remove blank s.inside k s.limiters.limiters), few)

  crowd-length-le : (keys : List K) (m : Map K (Entry g)) → length m ≤ crowd blank keys m
  unfolding crowd
  crowd-length-le [] m = omega arith
  crowd-length-le (k ∷ keys) m = elim (Bool-cases (contains_key k m)) [
    | inl present ↦ rw present (crowd-length-le keys m)
    | inr absent ↦ rw absent (
        omega
          (arith, crowd-length-le keys (insert k blank m), length-insert_absent k blank m absent))
  ]

  Reach-HasRoom :
      {most threads : ℕ} {r : Limiters g K} {s : Racing}
      → length r.limiters ≤ most
      → 0 < threads
      → Reach most threads r s
      → HasRoom most threads s
  unfolding crowd
  Reach-HasRoom h some_thread start = (omega (arith, h, some_thread), omega arith)
  Reach-HasRoom h some_thread (later before step) =
      Step-HasRoom step (Reach-HasRoom h some_thread before)

  -- A map that starts within its limit, with no request inside, never holds more keys than that limit and one less than the number of requests that run at once, in whatever order their accesses and those of a sweep come. One request at a time keeps the limit.
  pub Reach-bounded :
      (most threads : ℕ) (r : Limiters g K) (s : Racing)
      → length r.limiters ≤ most
      → 0 < threads
      → Reach most threads r s
      → length s.limiters.limiters + 1 ≤ most + threads
  Reach-bounded most threads r s h some_thread reached =
      omega (
        arith,
        (Reach-HasRoom h some_thread reached).0,
        crowd-length-le s.inside s.limiters.limiters,
      )
