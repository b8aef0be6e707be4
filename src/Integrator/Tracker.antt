-- ===== src/Integrator/Tracker.antt =====
-- src/integrator/tracker.rs: the verification quota of each API key.
pub mod Laws
pub mod History
use executor_node.Prelude.{
  ℕ, ◌+◌, ◌-◌, ◌%◌, Bool, true, false, not, ◌&&◌, Option, none, some, List, [], ◌∷◌, Bytes, bytes,
  ltb, leb, nat_eq, if◌then◌else◌, Result, ok, err, Bytes_eq,
}
use executor_node.Clock.{u64_mod, u64_max}
use executor_node.Error.{AppError, insufficient_quota}
use executor_node.Map.{Map, get, contains_key, insert}

abbrev default_free_quota : ℕ
default_free_quota = 1000

pub record IntegratorState : Type 0 where
  pub name : Bytes
  pub quota : ℕ
  pub used : ℕ

pub record IntegratorTracker : Type 0 where
  pub state : Map Bytes IntegratorState
  pub allow_unknown : Bool

-- The fields of `config::IntegratorConfig` that the tracker reads.
pub record IntegratorConfig : Type 0 where
  pub api_key : Bytes
  pub name : Bytes
  pub quota : ℕ

abbrev initial : IntegratorConfig → IntegratorState
initial c = record { name = c.name; quota = c.quota; used = 0 }

load : List IntegratorConfig → Map Bytes IntegratorState → Map Bytes IntegratorState
load [] state = state
load (c ∷ cs) state = load cs (insert c.api_key (initial c) state)

abbrev is_empty : List IntegratorConfig → Bool
is_empty [] = true
is_empty (c ∷ cs) = false

pub new : List IntegratorConfig → IntegratorTracker
unfolding load
new integrators = record { state = load integrators []; allow_unknown = is_empty integrators }

-- `quota == 0` means unlimited.
unfoldable pub remaining : IntegratorState → ℕ
remaining s = if nat_eq s.quota 0 then u64_max else s.quota - s.used

unfoldable pub spend : IntegratorState → IntegratorState
spend s = record s { used = (s.used + 1) % u64_mod }

unfoldable pub is_exhausted : IntegratorState → Bool
is_exhausted s = ltb 0 s.quota && leb s.quota s.used

-- The part of `check_and_deduct` after the key's entry is borrowed.
unfoldable pub deduct :
    IntegratorTracker → Bytes → Option IntegratorState → IntegratorTracker × Result AppError ℕ
unfolding remaining spend is_exhausted
deduct t api_key none = (t, err insufficient_quota)
deduct t api_key (some s) =
    if is_exhausted s
    then (t, err insufficient_quota)
    else (record t { state = insert api_key (spend s) t.state }, ok (remaining (spend s)))

abbrev free_tier : IntegratorState
free_tier = record { name = bytes "free-tier"; quota = default_free_quota; used = 0 }

unfoldable pub register : IntegratorTracker → Bytes → IntegratorTracker
register t api_key = record t { state = insert api_key free_tier t.state }

unfoldable pub check_and_deduct : IntegratorTracker → Bytes → IntegratorTracker × Result AppError ℕ
unfolding deduct register
check_and_deduct t api_key =
    if not (contains_key api_key t.state)
    then (if not t.allow_unknown
        then (t, err insufficient_quota)
        else deduct (register t api_key) api_key (get api_key (register t api_key).state))
    else deduct t api_key (get api_key t.state)

unfoldable pub refund : IntegratorTracker → Bytes → IntegratorTracker
refund t api_key = elim (get api_key t.state) [
  | none ↦ t
  | some s ↦ record t { state = insert api_key (record s { used = s.used - 1 }) t.state }
]

unfoldable pub get_remaining : IntegratorTracker → Bytes → ℕ
unfolding remaining
get_remaining t api_key = elim (get api_key t.state) [ none ↦ 0 | some s ↦ remaining s ]
