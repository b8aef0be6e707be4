-- ===== src/Challenge/Lissajous.antt =====
-- src/challenge/lissajous.rs: the curve of the touch challenge. `delta` is the bit pattern of its
-- `f64`; the random draws are arguments.
use executor_node.Prelude.{ℕ, ◌%◌, List, [], ◌∷◌, get_or, length}

pub record LissajousParams : Type 0 where
  pub a : ℕ
  pub b : ℕ
  pub delta : ℕ
  pub points : ℕ
  pub anchor_x : ℕ
  pub anchor_y : ℕ

abbrev ratios : List (ℕ × ℕ)
ratios = (1, 2) ∷ (2, 3) ∷ (3, 4) ∷ (3, 5) ∷ (4, 5) ∷ []

abbrev pub anchors : List (ℕ × ℕ)
anchors = (0, 0) ∷ (100, 0) ∷ (0, 100) ∷ (100, 100) ∷ (50, 50) ∷ []

pub generate : ℕ → ℕ → ℕ → LissajousParams
generate ratio_draw anchor_draw delta =
    let ratio = get_or ratios (ratio_draw % length ratios) (0, 0) in
    let anchor = get_or anchors (anchor_draw % length anchors) (0, 0) in
    record {
      a = ratio.0;
      b = ratio.1;
      delta = delta;
      points = 200;
      anchor_x = anchor.0;
      anchor_y = anchor.1;
    }
