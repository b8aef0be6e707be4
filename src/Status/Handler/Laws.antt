-- ===== src/Status/Handler/Laws.antt =====
-- What `status_handler` of src/status/handler.rs tells, and to whom.
use executor_node.Prelude.{
  ℕ, ◌-◌, ◌<◌, ◌≤◌, ◌≡◌, ◌⊎◌, ◌↔◌, refl, ap, inl, inr, Bool, true, false, Option, none, some, List,
  [], ◌∷◌, Bytes, arith, ltb, nat_eq, length, Result, ok, Bool-cases, Result-cases,
}
use executor_node.Error.{AppError}
use executor_node.Auth.ApiKey.Laws.{IsOneOf}
use executor_node.Status.Metrics.{StatusMetrics}
use executor_node.Status.Handler.{
  StatusResponse, public_status, is_candidate, is_authenticated, read_balance, status_handler,
}

module _ (ct_eq : Bytes → Bytes → Bool)
    (ct_eq_iff : (a b : Bytes) → length a ≡ length b → (ct_eq a b ≡ true) ↔ (a ≡ b)) where
  is_candidate_iff :
      (key : Bytes) (keys : List Bytes) → (is_candidate ct_eq key keys ≡ true) ↔ IsOneOf key keys
  unfolding is_candidate IsOneOf
  is_candidate_iff key [] = (λ h. cc, λ h. absurd h)
  is_candidate_iff key (k ∷ keys) = elim (Bool-cases (nat_eq (length k) (length key))) [
    | inl same ↦ ground (arith, same, ct_eq_iff k key (ground arith), is_candidate_iff key keys)
    | inr other ↦ (
      λ h. ground (arith, other, is_candidate_iff key keys),
      λ h. elim h [
        | inl e ↦ absurd (ground (arith, other, ap length e))
        | inr later ↦ ground (arith, other, is_candidate_iff key keys)
      ],
    )
  ]

  -- The request carries a key of the list.
  abbrev pub IsHolder : Option Bytes → List Bytes → Type 0
  IsHolder header keys = (key : Bytes) × (header ≡ some key) × IsOneOf key keys

  is_authenticated-IsHolder :
      (header : Option Bytes) (keys : List Bytes)
      → is_authenticated ct_eq header keys ≡ true
      → IsHolder header keys
  unfolding is_authenticated
  is_authenticated-IsHolder none keys h = cc
  is_authenticated-IsHolder (some key) keys h = (key, refl, (is_candidate_iff key keys).0 h)

  module _ (get_balance : Result AppError ℕ) where
    -- A balance that is at most 30 seconds old, or is just read from the chain and kept.
    abbrev pub IsRecent : ℕ → StatusMetrics → StatusMetrics → ℕ → Type 0
    IsRecent now m kept balance =
        ((now - m.balance_cache.1 < 30) × (balance ≡ m.balance_cache.0) × (kept ≡ m))
        ⊎ ((30 ≤ now - m.balance_cache.1)
            × (get_balance ≡ ok balance)
            × (kept.balance_cache ≡ (balance, now)))

    read_balance-IsRecent :
        (now : ℕ) (m : StatusMetrics) (balance : ℕ)
        → (read_balance ct_eq get_balance now m).1 ≡ ok balance
        → IsRecent now m (read_balance ct_eq get_balance now m).0 balance
    unfolding read_balance
    read_balance-IsRecent now m balance h = elim (Bool-cases (ltb (now - m.balance_cache.1) 30)) [
      | inl fresh ↦
          let same = rw (fresh, read_balance) at h in
          rw (fresh, read_balance) (inl (ground arith, ground (arith, same), refl))
      | inr stale ↦ elim (Result-cases get_balance) [
        | inr (e, failed) ↦ absurd (ground (arith, rw (stale, failed, read_balance) at h))
        | inl (b, answered) ↦
            let same = rw (stale, answered, read_balance) at h in
            let equal : b ≡ balance = ground (arith, same) in
            rw (stale, answered, read_balance)
              (inr (ground arith, ap ok equal, ap (λ x. (x, now)) equal))
      ]
    ]

    -- The counters and the relayer's balance are told only to a request with a listed key, under a correct comparison of keys; any other request is answered without them and changes nothing. The balance that is told is the kept one while that is less than 30 seconds old, and else the one that the chain has just answered, which is then kept with its time.
    pub status_handler_lem :
        (keys : List Bytes) (has_attestor : Bool) (now : ℕ) (header : Option Bytes)
        (m : StatusMetrics) (r : StatusResponse)
        → (status_handler ct_eq get_balance keys has_attestor now header m).1 ≡ ok r
        → ((status_handler ct_eq get_balance keys has_attestor now header m ≡ (m, ok public_status))
            × (is_authenticated ct_eq header keys ≡ false))
          ⊎ (IsHolder header keys
              × ((balance : ℕ) × (r.relayer_balance_lamports ≡ some balance)
                  × IsRecent now m
                      (status_handler ct_eq get_balance keys has_attestor now header m).0
                      balance))
    unfolding status_handler
    status_handler_lem keys has_attestor now header m r h =
        elim (Bool-cases (is_authenticated ct_eq header keys)) [
          | inr stranger ↦ inl (rw (stranger, status_handler) refl, stranger)
          | inl holder ↦
              let balance = read_balance ct_eq get_balance now m in
              elim (Result-cases balance.1) [
                | inr (e, failed) ↦
                    absurd (ground (arith, rw (holder, failed, status_handler) at h))
                | inl (b, read) ↦
                    let same = rw (holder, read, status_handler) at h in
                    inr (
                      is_authenticated-IsHolder header keys holder,
                      (
                        b,
                        ground (arith, same),
                        rw (holder, read, status_handler) (read_balance-IsRecent now m b read),
                      ),
                    )
              ]
        ]
