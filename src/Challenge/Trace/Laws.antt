-- ===== src/Challenge/Trace/Laws.antt =====
-- How much of an outline src/challenge/curve_trace.rs looks at.
use executor_node.Prelude.{
  ℕ, zero, suc, ◌+◌, ◌≤◌, ◌≡◌, inl, inr, true, List, [], ◌∷◌, All, arith, leb, length, take,
  length-take, Bool-cases,
}
use executor_node.Challenge.Trace.{
  Point, is_inside, kept, sanitize_trace, picked, subsample_for_alignment,
}

length-kept : (points : List Point) → length (kept points) ≤ length points
unfolding kept
length-kept [] = omega arith
length-kept (p ∷ points) = ground (arith, length-kept points)

All-kept : (points : List Point) → All (λ p. is_inside p ≡ true) (kept points)
unfolding kept
All-kept [] = tt
All-kept (p ∷ points) = elim (Bool-cases (is_inside p)) [
  | inl inside ↦ rw inside (inside, All-kept points)
  | inr outside ↦ rw outside (All-kept points)
]

-- A cleaned outline has at most 2048 points, and each of them is finite and inside the envelope.
sanitize_trace_bounds :
    (points : List Point)
    → (length (sanitize_trace points) ≤ 2048)
      × All (λ p. is_inside p ≡ true) (sanitize_trace points)
unfolding sanitize_trace
sanitize_trace_bounds points =
    let few = length-kept (take 2048 points) in
    let cut = length-take 2048 points in (omega (arith, few, cut), All-kept (take 2048 points))

length-picked : (trace : List Point) (i n : ℕ) → length (picked trace i n) ≡ n
unfolding picked
length-picked trace i zero = omega arith
length-picked trace i (suc n) = omega (arith, length-picked trace (i + 1) n)

-- A subsample has at most 256 points.
length-subsample_for_alignment : (trace : List Point) → length (subsample_for_alignment trace) ≤ 256
unfolding subsample_for_alignment
length-subsample_for_alignment trace = elim (Bool-cases (leb (length trace) 256)) [
  | inl short ↦ rw short (ground arith)
  | inr long ↦ rw long (omega (arith, length-picked trace 0 256))
]
