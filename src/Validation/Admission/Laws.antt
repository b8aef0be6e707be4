-- ===== src/Validation/Admission/Laws.antt =====
-- What the gates of src/validation/handler.rs do to the budgets of an integrator and of a wallet.
use executor_node.Prelude.{
  ℕ, ◌+◌, ◌<◌, ◌≡◌, refl, ap, ◌∙◌, inl, inr, Option, none, some, Bytes, Bytes_eq, arith, ok, err,
  Option-cases, Result-cases,
}
use executor_node.Clock.{u8_mod}
use executor_node.Error.{AppError, wallet_rate_limited}
use executor_node.Map.{get, insert, get-insert_self}
use executor_node.Integrator.Tracker.{IntegratorState, IntegratorTracker, check_and_deduct, deduct}
use executor_node.Integrator.Tracker.Laws.{IsWithin, deduct_known, refund-check_and_deduct}
use executor_node.Integrator.WalletAttempts.{
  WalletState, WalletAttemptTracker, current, check_and_record_attempt, refund_on_success,
}
use executor_node.Validation.Admission.{admit_attempt, deduct_quota, refund_infrastructure_failure}
use executor_node.State.{AppState}

-- What the attempt counter knows of a wallet at a time.
abbrev pub attempts_at : WalletAttemptTracker → ℕ → Bytes → WalletState
attempts_at t now wallet = current t now (get wallet t.state)

-- The limit is a byte, and a window takes time.
abbrev pub IsLimit : WalletAttemptTracker → Type 0
IsLimit t = (t.max_attempts < u8_mod) × (0 < t.window_duration)

current_idem :
    (t : WalletAttemptTracker) (now : ℕ) (o : Option WalletState)
    → 0 < t.window_duration
    → current t now (some (current t now o)) ≡ current t now o
unfolding current
current_idem t now none w = ground arith
current_idem t now (some s) w = ground arith

attempts_window :
    (t u : WalletAttemptTracker) (now : ℕ) (o : Option WalletState)
    → t.window_duration ≡ u.window_duration
    → current t now o ≡ current u now o
unfolding current
attempts_window t u now none h = refl
attempts_window t u now (some s) h = ground arith

recorded :
    (t : WalletAttemptTracker) (now : ℕ) (wallet : Bytes)
    → IsLimit t
    → (check_and_record_attempt t now wallet).1 ≡ ok tt
    → (check_and_record_attempt t now wallet).0 ≡ record t {
      state =
          insert wallet
            (record (attempts_at t now wallet) {
              attempts = (attempts_at t now wallet).attempts + 1;
            })
            t.state;
    }
unfolding check_and_record_attempt
recorded t now wallet l h = ground arith

refund_recorded :
    (t : WalletAttemptTracker) (wallet : Bytes) (c : WalletState)
    → get wallet
        (refund_on_success
          (record t { state = insert wallet (record c { attempts = c.attempts + 1 }) t.state })
          wallet).state
      ≡ some c
unfolding refund_on_success
refund_recorded t wallet c =
    let raised = record c { attempts = c.attempts + 1 } in
    ground (
      arith,
      get-insert_self wallet raised t.state,
      get-insert_self wallet c (insert wallet raised t.state),
    )

refund_same :
    (t : WalletAttemptTracker) (wallet : Bytes)
    → ((refund_on_success t wallet).max_attempts ≡ t.max_attempts)
      × ((refund_on_success t wallet).window_duration ≡ t.window_duration)
unfolding refund_on_success
refund_same t wallet = ground arith

-- An attempt that is refunded leaves what the counter knew; so does one that is refused.
pub attempts_refunded :
    (t : WalletAttemptTracker) (now : ℕ) (wallet : Bytes)
    → IsLimit t
    → (check_and_record_attempt t now wallet).1 ≡ ok tt
    → attempts_at (refund_on_success (check_and_record_attempt t now wallet).0 wallet) now wallet
      ≡ attempts_at t now wallet
attempts_refunded t now wallet l h =
    let c = attempts_at t now wallet in
    let next = recorded t now wallet l h in
    let t' : WalletAttemptTracker = record t {
      state = insert wallet (record c { attempts = c.attempts + 1 }) t.state;
    } in
    let same = refund_same t' wallet in
    rw (next, refund_recorded t wallet c)
      (attempts_window (refund_on_success t' wallet) t now (some c) same.1
        ∙ current_idem t now (get wallet t.state) l.1)

pub attempts_refused :
    (t : WalletAttemptTracker) (now n : ℕ) (wallet : Bytes)
    → IsLimit t
    → (check_and_record_attempt t now wallet).1 ≡ err n
    → attempts_at (check_and_record_attempt t now wallet).0 now wallet ≡ attempts_at t now wallet
unfolding check_and_record_attempt
attempts_refused t now n wallet l h = elim (Option-cases (get wallet t.state)) [
  | inl e ↦ ground (arith, get-insert_self wallet (attempts_at t now wallet) t.state)
  | inr (s, e) ↦ ground (arith, get-insert_self wallet (attempts_at t now wallet) t.state)
]

-- The same budgets: the entry of the key, and what the counter knows of the wallet.
abbrev pub IsKept : AppState → AppState → ℕ → Bytes → Bytes → Type 0
IsKept s s' now api_key wallet =
    (get api_key s'.tracker.state ≡ get api_key s.tracker.state)
    × (attempts_at s'.wallet_attempts now wallet ≡ attempts_at s.wallet_attempts now wallet)

-- A key with an entry that has a finite quota, and a limit on attempts.
abbrev pub IsBudgeted : AppState → Bytes → IntegratorState → Type 0
IsBudgeted s api_key i =
    (get api_key s.tracker.state ≡ some i) × IsWithin i × (0 < i.quota) × IsLimit s.wallet_attempts

deduct_refused :
    (t : IntegratorTracker) (k : Bytes) (i : IntegratorState) (e : AppError)
    → get k t.state ≡ some i
    → (check_and_deduct t k).1 ≡ err e
    → (check_and_deduct t k).0 ≡ t
unfolding deduct
deduct_refused t k i e g h = let known = deduct_known t k i g in ground arith

-- The three ways of an admission.
admit_limited :
    (s : AppState) (now n : ℕ) (k w : Bytes)
    → (check_and_record_attempt s.wallet_attempts now w).1 ≡ err n
    → admit_attempt s now k w ≡ (
      record s { wallet_attempts = (check_and_record_attempt s.wallet_attempts now w).0 },
      err (wallet_rate_limited n),
    )
unfolding admit_attempt
admit_limited s now n k w h = rw (h, admit_attempt) refl

admit_exhausted :
    (s : AppState) (now : ℕ) (k w : Bytes) (e : AppError)
    → (check_and_record_attempt s.wallet_attempts now w).1 ≡ ok tt
    → (check_and_deduct s.tracker k).1 ≡ err e
    → admit_attempt s now k w ≡ (
      record s {
        tracker = (check_and_deduct s.tracker k).0;
        wallet_attempts = refund_on_success (check_and_record_attempt s.wallet_attempts now w).0 w;
      },
      err e,
    )
unfolding admit_attempt deduct_quota
admit_exhausted s now k w e h g = rw (h, admit_attempt) (rw (g, deduct_quota) refl)

admit_passed :
    (s : AppState) (now n : ℕ) (k w : Bytes)
    → (check_and_record_attempt s.wallet_attempts now w).1 ≡ ok tt
    → (check_and_deduct s.tracker k).1 ≡ ok n
    → admit_attempt s now k w ≡ (
      record s {
        tracker = (check_and_deduct s.tracker k).0;
        wallet_attempts = (check_and_record_attempt s.wallet_attempts now w).0;
      },
      ok n,
    )
unfolding admit_attempt deduct_quota
admit_passed s now n k w h g = rw (h, admit_attempt) (rw (g, deduct_quota) refl)

-- An admission that is refused keeps both budgets; one that passes keeps them once it is refunded.
pub admit_attempt-IsKept :
    (s : AppState) (now : ℕ) (k w : Bytes) (i : IntegratorState)
    → IsBudgeted s k i
    → ((e : AppError)
        → (admit_attempt s now k w).1 ≡ err e
        → IsKept s (admit_attempt s now k w).0 now k w)
      × ((n : ℕ)
          → (admit_attempt s now k w).1 ≡ ok n
          → IsKept s (refund_infrastructure_failure (admit_attempt s now k w).0 k w) now k w)
unfolding refund_infrastructure_failure
admit_attempt-IsKept s now k w i b =
    elim (Result-cases (check_and_record_attempt s.wallet_attempts now w).1) [
      | inr (n, refused) ↦ rw (admit_limited s now n k w refused) (
        (λ e h. (refl, attempts_refused s.wallet_attempts now n w b.3 refused)),
        λ n h. absurd (ground (arith, h)),
      )
      | inl (u, passed) ↦ elim (Result-cases (check_and_deduct s.tracker k).1) [
        | inl (n, deducted) ↦ rw (admit_passed s now n k w passed deducted) (
          (λ e h. absurd (ground (arith, h))),
          λ m h. (
            (refund-check_and_deduct s.tracker k i n b.0 b.1 b.2 deducted).2,
            attempts_refunded s.wallet_attempts now w b.3 passed,
          ),
        )
        | inr (e', exhausted) ↦ rw (admit_exhausted s now k w e' passed exhausted) (
          (λ e h. (
            ap (λ t. get k t.state) (deduct_refused s.tracker k i e' b.0 exhausted),
            attempts_refunded s.wallet_attempts now w b.3 passed,
          )),
          λ n h. absurd (ground (arith, h)),
        )
      ]
    ]
