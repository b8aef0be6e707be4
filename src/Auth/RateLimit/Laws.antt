-- ===== src/Auth/RateLimit/Laws.antt =====
-- The bounds and the isolation of the limiters of src/auth/rate_limit.rs.
use executor_node.Prelude.{
  ℕ, ◌≡◌, refl, ◌∙◌, inl, inr, Bool, false, some, HasTest, arith, List, [], ◌∷◌, Bool-cases,
  if◌then◌else◌, ◌==◌,
}
use executor_node.Map.{get, insert, get-insert, get-insert_self}
use executor_node.Auth.RateLimit.{Governor, Limiters, limiter_of, check_limit}

-- The answers of a token bucket that serves the key alone.
unfoldable pub bucket_answers : (g : Governor) → g.Limiter → List ℕ → List Bool
bucket_answers g lim [] = []
bucket_answers g lim (now ∷ rest) = (g.check lim now).1 ∷ bucket_answers g (g.check lim now).0 rest

module _ (g : Governor) {K : Type 0} ⦃e : HasTest K⦄ where
  -- The requests of one key among those of all keys.
  unfoldable pub times : K → List (ℕ × K) → List ℕ
  times k [] = []
  times k ((now, j) ∷ rest) = let later = times k rest in if k == j then now ∷ later else later

  -- The answers that the requests of one key get, among requests of all keys.
  unfoldable pub answers : ℕ → K → Limiters g K → List (ℕ × K) → List Bool
  answers most k r [] = []
  answers most k r ((now, j) ∷ rest) =
      let later = answers most k (check_limit g most r now j).0 rest in
      if k == j then (check_limit g most r now j).1 ∷ later else later

  check_self :
      (most : ℕ) (r : Limiters g K) (now seen : ℕ) (k : K) (lim : g.Limiter)
      → get k r.limiters ≡ some (lim, seen)
      → ((check_limit g most r now k).1 ≡ (g.check lim now).1)
        × (get k (check_limit g most r now k).0.limiters ≡ some ((g.check lim now).0, now))
  unfolding check_limit
  check_self most r now seen k lim h =
      let entered = insert k (lim, now) r.limiters in
      ground (arith, h, get-insert_self k ((g.check lim now).0, now) entered)

  pub check_other :
      (most : ℕ) (r : Limiters g K) (now : ℕ) (k j : K)
      → (k == j) ≡ false
      → get k (check_limit g most r now j).0.limiters ≡ get k r.limiters
  unfolding check_limit
  check_other most r now k j h =
      let lim = limiter_of g r (get j r.limiters) in
      let entered = insert j (lim, now) r.limiters in
      ground (
        arith,
        h,
        get-insert k j (lim, now) r.limiters,
        get-insert k j ((g.check lim now).0, now) entered,
      )

  -- Requests of other keys change no answer of a tracked key: among any requests, its requests get the answers that a token bucket of its own would give them.
  pub answers-bucket_answers :
      (most : ℕ) (k : K) (rest : List (ℕ × K)) (r : Limiters g K) (lim : g.Limiter) (seen : ℕ)
      → get k r.limiters ≡ some (lim, seen)
      → answers most k r rest ≡ bucket_answers g lim (times k rest)
  unfolding answers bucket_answers times
  answers-bucket_answers most k [] r lim seen h = refl
  answers-bucket_answers most k ((now, j) ∷ rest) r lim seen h = elim (Bool-cases (k == j)) [
    | inl same ↦ rw (← (e.test_iff k j).0 same) (
        let (answer, kept) = check_self most r now seen k lim h in
        ground (
          arith,
          e.test_iff k k,
          answer,
          answers-bucket_answers most k rest (check_limit g most r now k).0 (g.check lim now).0 now
              kept,
        ))
    | inr other ↦ ground (
      arith,
      other,
      answers-bucket_answers most k rest (check_limit g most r now j).0 lim seen
          (check_other most r now k j other ∙ h),
    )
  ]
