-- ===== src/Integrator/WalletAttempts/Laws.antt =====
-- The attempt limit of src/integrator/wallet_attempts.rs.
use executor_node.Prelude.{
  ℕ, ◌+◌, ◌-◌, ◌%◌, ◌≤◌, ◌<◌, ◌≡◌, refl, ◌⊎◌, inl, inr, ◌∙◌, true, false, some, Bytes, arith,
  Bool-cases, Option-cases, Bytes_eq, bytes_eq_iff, if◌then◌else◌, ◌==◌, is_ok, List, [], ◌∷◌, ◌||◌,
  ltb,
}
use executor_node.Clock.{u8_mod}
use executor_node.Map.{get, get-insert, get-insert_self, get-retain}
use executor_node.Integrator.WalletAttempts.{
  WalletState, WalletAttemptTracker, current, check_and_record_attempt, check, evict_expired,
}

-- With a positive limit, `check` answers what `check_and_record_attempt` would answer, the wait included.
pub check-check_and_record_attempt :
    (t : WalletAttemptTracker) (now : ℕ) (wallet : Bytes)
    → 0 < t.max_attempts
    → check t now wallet ≡ (check_and_record_attempt t now wallet).1
unfolding check check_and_record_attempt
check-check_and_record_attempt t now wallet p = elim (Option-cases (get wallet t.state)) [
  | inl e ↦ rw (e, check, check_and_record_attempt) (ground arith)
  | inr (s, e) ↦ rw (e, check, check_and_record_attempt) (ground arith)
]

-- A sweep changes no answer: whatever it evicts, an attempt is answered as without it.
pub check_and_record_attempt-evict_expired :
    (t : WalletAttemptTracker) (swept now : ℕ) (wallet : Bytes)
    → swept ≤ now
    → (check_and_record_attempt (evict_expired t swept) now wallet).1
      ≡ (check_and_record_attempt t now wallet).1
unfolding check_and_record_attempt evict_expired
check_and_record_attempt-evict_expired t swept now wallet p =
    let kept =
      get-retain (λ s. ltb (swept - s.window_start) t.window_duration || ltb 0 s.attempts) wallet
        t.state in
    elim (Option-cases (get wallet t.state)) [
      | inl e ↦ ground (arith, kept)
      | inr (s, e) ↦ ground (arith, kept)
    ]

-- Attempts at the given times, by the given wallets, with nothing refunded.
unfoldable pub admitted : Bytes → WalletAttemptTracker → List (ℕ × Bytes) → ℕ
admitted k t [] = 0
admitted k t ((now, j) ∷ rest) =
    (if k == j then (if is_ok (check_and_record_attempt t now j).1 then 1 else 0) else 0)
    + admitted k (check_and_record_attempt t now j).0 rest

-- Every attempt of the history comes before the wallet's window closes.
abbrev pub Before : ℕ → List (ℕ × Bytes) → Type 0
Before end [] = Unit
Before end ((now, j) ∷ rest) = (now < end) × Before end rest

attempt_other :
    (k j : Bytes) (t : WalletAttemptTracker) (now : ℕ)
    → (k == j) ≡ false
    → get k (check_and_record_attempt t now j).0.state ≡ get k t.state
unfolding check_and_record_attempt
attempt_other k j t now h =
    let s = current t now (get j t.state) in
    let used = get-insert k j (record s { attempts = (s.attempts + 1) % u8_mod }) t.state in
    ground (arith, h, get-insert k j s t.state, used)

current_open :
    (t : WalletAttemptTracker) (now : ℕ) (s : WalletState)
    → 0 < t.window_duration
    → now < s.window_start + t.window_duration
    → current t now (some s) ≡ s
unfolding current
current_open t now s d h = ground arith

attempt_self :
    (k : Bytes) (t : WalletAttemptTracker) (now : ℕ) (s : WalletState)
    → get k t.state ≡ some s
    → t.max_attempts < 256
    → s.attempts ≤ t.max_attempts
    → 0 < t.window_duration
    → now < s.window_start + t.window_duration
    → ((is_ok (check_and_record_attempt t now k).1 ≡ false)
        × (get k (check_and_record_attempt t now k).0.state ≡ some s))
      ⊎ ((is_ok (check_and_record_attempt t now k).1 ≡ true)
          × (s.attempts < t.max_attempts)
          × (get k (check_and_record_attempt t now k).0.state
              ≡ some (record s { attempts = s.attempts + 1 })))
unfolding check_and_record_attempt
attempt_self k t now s e m v d h =
    let used = get-insert_self k (record s { attempts = (s.attempts + 1) % u8_mod }) t.state in
    let open_window = current_open t now s d h in
    rw (e, check_and_record_attempt)
      (rw open_window (ground (arith, get-insert_self k s t.state, used)))

attempt_limits :
    (t : WalletAttemptTracker) (now : ℕ) (j : Bytes)
    → ((check_and_record_attempt t now j).0.max_attempts ≡ t.max_attempts)
      × ((check_and_record_attempt t now j).0.window_duration ≡ t.window_duration)
unfolding check_and_record_attempt
attempt_limits t now j = ground arith

admitted_until :
    (k : Bytes) (rest : List (ℕ × Bytes)) (t : WalletAttemptTracker) (s : WalletState) (end : ℕ)
    → get k t.state ≡ some s
    → t.max_attempts < 256
    → s.attempts ≤ t.max_attempts
    → 0 < t.window_duration
    → s.window_start + t.window_duration ≡ end
    → Before end rest
    → admitted k t rest + s.attempts ≤ t.max_attempts
unfolding admitted
admitted_until k [] t s end e m v d w b = omega arith
admitted_until k ((now, j) ∷ rest) t s end e m v d w b = elim (Bool-cases (k == j)) [
  | inl same ↦ rw (← (bytes_eq_iff k j).0 same) (
      let t' = (check_and_record_attempt t now k).0 in
      let (same_max, same_window) = attempt_limits t now k in
      elim (attempt_self k t now s e m v d (omega arith)) [
        | inl (refused, kept) ↦ ground (
          arith,
          refused,
          admitted_until k rest t' s end kept (ground arith) (ground arith) (ground arith)
              (ground arith) b.1,
        )
        | inr (passed, room, stored) ↦
            let used = record s { attempts = s.attempts + 1 } in
            ground (
              arith,
              passed,
              bytes_eq_iff k k,
              admitted_until k rest t' used end stored (ground arith) (ground arith) (ground arith)
                  (ground arith) b.1,
            )
      ])
  | inr other ↦
      let t' = (check_and_record_attempt t now j).0 in
      let (same_max, same_window) = attempt_limits t now j in
      let kept = attempt_other k j t now other ∙ e in
      ground (
        arith,
        admitted_until k rest t' s end kept (ground arith) (ground arith) (ground arith)
            (ground arith) b.1,
      )
]

-- Until the window of a wallet closes, and with nothing refunded, attempts of the wallet are admitted at most as often as the limit leaves room for, whatever other wallets attempt between them.
pub admitted-le :
    (k : Bytes) (rest : List (ℕ × Bytes)) (t : WalletAttemptTracker) (s : WalletState)
    → get k t.state ≡ some s
    → t.max_attempts < 256
    → s.attempts ≤ t.max_attempts
    → 0 < t.window_duration
    → Before (s.window_start + t.window_duration) rest
    → admitted k t rest + s.attempts ≤ t.max_attempts
admitted-le k rest t s e m v d b = admitted_until k rest t s _ e m v d refl b
