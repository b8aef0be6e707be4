-- ===== src/Challenge/Trace.antt =====
-- src/challenge/curve_trace.rs: what is kept of a client's outline before it is scored. A coordinate
-- is the bit pattern of its `f64`. The scoring itself is floating-point telemetry.
pub mod Laws
use executor_node.Prelude.{
  ℕ, zero, suc, ◌+◌, ◌-◌, ◌*◌, ◌/◌, ◌%◌, Bool, ◌&&◌, List, [], ◌∷◌, leb, if◌then◌else◌, length,
  take, get_or,
}
use executor_node.Validation.Float.{sign_bit, is_finite, le}

abbrev pub Point : Type 0
Point = ℕ × ℕ

abbrev pub max_curve_trace_points : ℕ
max_curve_trace_points = 2048

abbrev pub alignment_max_points : ℕ
alignment_max_points = 256

-- 10000
abbrev pub curve_trace_envelope : ℕ
curve_trace_envelope = 0x40c3880000000000

-- `f64::abs`
abbrev abs : ℕ → ℕ
abs x = x % sign_bit

unfoldable pub is_inside : Point → Bool
unfolding is_finite le
is_inside (x, y) =
    is_finite x
    && (is_finite y && (le (abs x) curve_trace_envelope && le (abs y) curve_trace_envelope))

unfoldable pub kept : List Point → List Point
unfolding is_inside
kept [] = []
kept (p ∷ points) = let more = kept points in if is_inside p then p ∷ more else more

unfoldable pub sanitize_trace : List Point → List Point
unfolding kept
sanitize_trace points = kept (take max_curve_trace_points points)

-- The points for `i` and on, `n` of them. An index is never past the last point, as `i` is at most
-- 255, so the default is never read.
unfoldable pub picked : List Point → ℕ → ℕ → List Point
picked trace i zero = []
picked trace i (suc n) =
    get_or trace (i * (length trace - 1) / (alignment_max_points - 1)) (0, 0)
    ∷ picked trace (i + 1) n

unfoldable pub subsample_for_alignment : List Point → List Point
unfolding picked
subsample_for_alignment trace =
    if leb (length trace) alignment_max_points then trace else picked trace 0 alignment_max_points
