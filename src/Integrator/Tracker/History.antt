-- ===== src/Integrator/Tracker/History.antt =====
-- Any interleaving of deductions and refunds, of whatever keys, on src/integrator/tracker.rs.
use executor_node.Prelude.{
  ℕ, ◌+◌, ◌-◌, ◌≤◌, ◌<◌, ◌≡◌, ◌∙◌, ◌⊎◌, true, false, some, Bytes, arith, List, [], ◌∷◌, Bool-cases,
  Option-cases, Bytes_eq, bytes_eq_iff, if◌then◌else◌, ◌==◌, is_ok, inl, inr,
}
use executor_node.Map.{get, get-insert, get-insert_self}
use executor_node.Integrator.Tracker.{
  IntegratorState, IntegratorTracker, check_and_deduct, refund, spend, deduct, register, free_tier,
}
use executor_node.Integrator.Tracker.Laws.{IsWithin, deduct_known}

pub data Call : Type 0 where
  deducts refunds : Bytes → Call

-- How many of the calls are deductions of the key that succeed.
unfoldable pub granted : Bytes → IntegratorTracker → List Call → ℕ
granted k t [] = 0
granted k t (deducts j ∷ cs) =
    (if k == j then (if is_ok (check_and_deduct t j).1 then 1 else 0) else 0)
    + granted k (check_and_deduct t j).0 cs
granted k t (refunds j ∷ cs) = granted k (refund t j) cs

unfoldable pub refunded : Bytes → List Call → ℕ
refunded k [] = 0
refunded k (deducts j ∷ cs) = refunded k cs
refunded k (refunds j ∷ cs) = (if k == j then 1 else 0) + refunded k cs

-- What a deduction does to the entry of another key, and to its own.
deduct_other :
    (k j : Bytes) (t : IntegratorTracker)
    → (k == j) ≡ false
    → get k (check_and_deduct t j).0.state ≡ get k t.state
unfolding check_and_deduct
deduct_other k j t h =
    let fresh = get-insert k j free_tier t.state in
    elim (Option-cases (get j t.state)) [
      | inl e ↦
          rw (e, check_and_deduct)
            (ground (
              arith,
              h,
              fresh,
              get-insert_self j free_tier t.state,
              get-insert k j (spend free_tier) (register t j).state,
            ))
      | inr (s, e) ↦ rw (e, check_and_deduct) (ground (arith, h, get-insert k j (spend s) t.state))
    ]

deduct_self :
    (k : Bytes) (t : IntegratorTracker) (s : IntegratorState)
    → get k t.state ≡ some s
    → IsWithin s
    → 0 < s.quota
    → ((is_ok (check_and_deduct t k).1 ≡ false) × (get k (check_and_deduct t k).0.state ≡ some s))
      ⊎ ((is_ok (check_and_deduct t k).1 ≡ true)
          × (s.used < s.quota)
          × (get k (check_and_deduct t k).0.state ≡ some (record s { used = s.used + 1 })))
unfolding deduct
deduct_self k t s e w q =
    let known = deduct_known t k s e in
    let stored = get-insert_self k (spend s) t.state in ground (arith, known, stored)

get-refund :
    (k j : Bytes) (t : IntegratorTracker) (s : IntegratorState)
    → get k t.state ≡ some s
    → get k (refund t j).state ≡ (if k == j then some (record s { used = s.used - 1 }) else some s)
unfolding refund
get-refund k j t s e = elim (Option-cases (get j t.state)) [
  | inl n ↦ rw (n, refund) (ground (arith, bytes_eq_iff k j))
  | inr (r, n) ↦
      rw (n, refund)
        (ground (arith, bytes_eq_iff k j, get-insert k j (record r { used = r.used - 1 }) t.state))
]

-- Over any history of deductions and refunds, of whatever keys, a key with a finite quota is granted at most its unused quota and one more for each refund of it.
pub granted-le :
    (k : Bytes) (cs : List Call) (t : IntegratorTracker) (s : IntegratorState)
    → get k t.state ≡ some s
    → IsWithin s
    → 0 < s.quota
    → granted k t cs + s.used ≤ s.quota + refunded k cs
unfolding granted refunded
granted-le k [] t s e w q = ground arith
granted-le k (deducts j ∷ cs) t s e w q = elim (Bool-cases (k == j)) [
  | inl same ↦ rw (← (bytes_eq_iff k j).0 same) (elim (deduct_self k t s e w q) [
    | inl (refused, kept) ↦
        ground (arith, bytes_eq_iff k k, granted-le k cs (check_and_deduct t k).0 s kept w q)
    | inr (passed, room, stored) ↦ ground (
      arith,
      bytes_eq_iff k k,
      granted-le k cs (check_and_deduct t k).0 (record s { used = s.used + 1 }) stored
          (w.0, λ _. omega arith) q,
    )
  ])
  | inr other ↦
      ground (arith, granted-le k cs (check_and_deduct t j).0 s (deduct_other k j t other ∙ e) w q)
]
granted-le k (refunds j ∷ cs) t s e w q = elim (Bool-cases (k == j)) [
  | inl same ↦
      let back = record s { used = s.used - 1 } in
      ground (
        arith,
        granted-le k cs (refund t j) back (rw same at (get-refund k j t s e)) (w.0, ground arith) q,
      )
  | inr other ↦
      ground (arith, granted-le k cs (refund t j) s (rw other at (get-refund k j t s e)) w q)
]
