-- ===== src/Clock.antt =====
-- Rust's `Instant` and `Duration` in nanoseconds. One call reads the clock once: the clock does
-- not advance inside an operation. `duration_since` and `elapsed` stop at zero, as ℕ does.
use executor_node.Prelude.{ℕ, ◌*◌, ◌/◌}

abbrev pub from_secs : ℕ → ℕ
from_secs n = n * 1000000000

-- `Duration::as_secs`, which truncates
abbrev pub as_secs : ℕ → ℕ
as_secs d = d / 1000000000

-- Moduli of the machine words.
abbrev pub u8_mod : ℕ
u8_mod = 256

abbrev pub u64_mod : ℕ
u64_mod = 18446744073709551616

abbrev pub u64_max : ℕ
u64_max = 18446744073709551615
