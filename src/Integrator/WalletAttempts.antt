-- ===== src/Integrator/WalletAttempts.antt =====
-- src/integrator/wallet_attempts.rs: the attempts of a wallet within its window.
pub mod Laws
use executor_node.Prelude.{
  ℕ, ◌+◌, ◌-◌, ◌%◌, Bool, true, false, ◌&&◌, ◌||◌, Option, none, some, Bytes, Bytes_eq, ltb, leb,
  if◌then◌else◌, Result, ok, err, [],
}
use executor_node.Clock.{as_secs, u8_mod}
use executor_node.Map.{Map, get, insert, retain}

pub record WalletState : Type 0 where
  pub attempts : ℕ
  pub window_start : ℕ

pub record WalletAttemptTracker : Type 0 where
  pub state : Map Bytes WalletState
  pub max_attempts : ℕ
  pub window_duration : ℕ

pub new : ℕ → ℕ → WalletAttemptTracker
new max_attempts window_duration = record {
  state = [];
  max_attempts = max_attempts;
  window_duration = window_duration;
}

-- The entry that `or_insert_with` and the reset of an expired window leave.
unfoldable pub current : WalletAttemptTracker → ℕ → Option WalletState → WalletState
current t now none = record { attempts = 0; window_start = now }
current t now (some s) =
    if leb t.window_duration (now - s.window_start)
    then record { attempts = 0; window_start = now }
    else s

unfoldable pub record_attempt :
    WalletAttemptTracker → ℕ → Bytes → WalletState → WalletAttemptTracker × Result ℕ (Unit {0})
record_attempt t now wallet s =
    if leb t.max_attempts s.attempts
    then (
      record t { state = insert wallet s t.state },
      err (as_secs (t.window_duration - (now - s.window_start))),
    )
    else (
      record t {
        state = insert wallet (record s { attempts = (s.attempts + 1) % u8_mod }) t.state;
      },
      ok tt,
    )

unfoldable pub check_and_record_attempt :
    WalletAttemptTracker → ℕ → Bytes → WalletAttemptTracker × Result ℕ (Unit {0})
unfolding current record_attempt
check_and_record_attempt t now wallet =
    record_attempt t now wallet (current t now (get wallet t.state))

unfoldable pub check_entry : WalletAttemptTracker → ℕ → Option WalletState → Result ℕ (Unit {0})
check_entry t now none = ok tt
check_entry t now (some s) =
    if ltb (now - s.window_start) t.window_duration && leb t.max_attempts s.attempts
    then err (as_secs (t.window_duration - (now - s.window_start)))
    else ok tt

unfoldable pub check : WalletAttemptTracker → ℕ → Bytes → Result ℕ (Unit {0})
unfolding check_entry
check t now wallet = check_entry t now (get wallet t.state)

unfoldable pub refund_on_success : WalletAttemptTracker → Bytes → WalletAttemptTracker
refund_on_success t wallet = elim (get wallet t.state) [
  | none ↦ t
  | some s ↦ record t { state = insert wallet (record s { attempts = s.attempts - 1 }) t.state }
]

unfoldable pub evict_expired : WalletAttemptTracker → ℕ → WalletAttemptTracker
evict_expired t now = record t {
  state = retain (λ s. ltb (now - s.window_start) t.window_duration || ltb 0 s.attempts) t.state;
}
