-- ===== src/Integrator/Tracker/Laws.antt =====
-- One deduction or refund of src/integrator/tracker.rs.
use executor_node.Prelude.{ℕ, ◌+◌, ◌≤◌, ◌<◌, ◌≡◌, some, Bytes, arith, ok, Bytes_eq}
use executor_node.Clock.{u64_mod}
use executor_node.Map.{get, get-insert_self}
use executor_node.Integrator.Tracker.{
  IntegratorState, IntegratorTracker, check_and_deduct, refund, get_remaining, spend, deduct,
}

-- No entry with a quota has used more than it, and the quota is a `u64`.
abbrev pub IsWithin : IntegratorState → Type 0
IsWithin s = (s.quota < u64_mod) × (0 < s.quota → s.used ≤ s.quota)

pub deduct_known :
    (t : IntegratorTracker) (k : Bytes) (s : IntegratorState)
    → get k t.state ≡ some s
    → check_and_deduct t k ≡ deduct t k (some s)
unfolding check_and_deduct
deduct_known t k s e = rw (e, check_and_deduct)

-- A deduction that follows another's refund: the refund restores the count and the remaining quota.
pub refund-check_and_deduct :
    (t : IntegratorTracker) (k : Bytes) (s : IntegratorState) (n : ℕ)
    → get k t.state ≡ some s
    → IsWithin s
    → 0 < s.quota
    → (check_and_deduct t k).1 ≡ ok n
    → (n + s.used + 1 ≡ s.quota)
      × (get_remaining t k ≡ n + 1)
      × (get k (refund (check_and_deduct t k).0 k).state ≡ get k t.state)
unfolding deduct refund get_remaining
refund-check_and_deduct t k s n e w q h =
    let known = deduct_known t k s e in
    let stored = get-insert_self k (spend s) t.state in
    let restored = get-insert_self k s (check_and_deduct t k).0.state in
    ground (arith, known, stored, restored)
