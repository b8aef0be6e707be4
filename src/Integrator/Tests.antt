-- ===== src/Integrator/Tests.antt =====
-- Small integrators and wallets for src/integrator.
use executor_node.Prelude.{
  ℕ, ◌+◌, ◌≤◌, ◌≡◌, refl, false, List, [], ◌∷◌, Bytes, bytes, Bytes_eq, bytes_eq, arith,
}
use executor_node.Map.{get}
use executor_node.Integrator.Tracker.{
  IntegratorState, IntegratorTracker, check_and_deduct, refund, get_remaining, remaining, spend,
  is_exhausted, deduct,
}
use executor_node.Integrator.Tracker.Laws.{refund-check_and_deduct}
use executor_node.Integrator.Tracker.History.{Call, deducts, refunds, granted, refunded, granted-le}
use executor_node.Integrator.WalletAttempts.{
  WalletState, WalletAttemptTracker, check, check_and_record_attempt, evict_expired,
}
use executor_node.Integrator.WalletAttempts.Laws.{
  check-check_and_record_attempt, check_and_record_attempt-evict_expired, admitted, admitted-le,
}

abbrev acme : Bytes
acme = bytes "acme"

abbrev half_used : IntegratorState
half_used = record { name = bytes "Acme"; quota = 2; used = 1 }

abbrev one_integrator : IntegratorTracker
one_integrator = record { state = (acme, half_used) ∷ []; allow_unknown = false }

abbrev calls : List Call
calls = deducts acme ∷ deducts acme ∷ refunds acme ∷ deducts acme ∷ []

granted-le_example : granted acme one_integrator calls + 1 ≤ 2 + refunded acme calls
unfolding get bytes_eq
granted-le_example =
    granted-le acme calls one_integrator half_used refl (omega arith, λ _. omega arith)
      (omega arith)

refund-check_and_deduct_example :
    (0 + 1 + 1 ≡ 2)
    × (get_remaining one_integrator acme ≡ 0 + 1)
    × (get acme (refund (check_and_deduct one_integrator acme).0 acme).state
        ≡ get acme one_integrator.state)
unfolding get bytes_eq check_and_deduct remaining spend is_exhausted deduct
refund-check_and_deduct_example =
    refund-check_and_deduct one_integrator acme half_used 0 refl (omega arith, λ _. omega arith)
      (omega arith) refl

abbrev wallet : Bytes
wallet = bytes "W"

abbrev attempted : WalletState
attempted = record { attempts = 2; window_start = 100 }

abbrev one_wallet : WalletAttemptTracker
one_wallet = record { state = (wallet, attempted) ∷ []; max_attempts = 3; window_duration = 50 }

abbrev attempts : List (ℕ × Bytes)
attempts = (110, wallet) ∷ (120, bytes "V") ∷ (130, wallet) ∷ []

admitted-le_example : admitted wallet one_wallet attempts + 2 ≤ 3
unfolding get bytes_eq
admitted-le_example =
    admitted-le wallet attempts one_wallet attempted refl (omega arith) (omega arith) (omega arith)
      (omega arith, (omega arith, (omega arith, tt)))

check-check_and_record_attempt_example :
    check one_wallet 120 wallet ≡ (check_and_record_attempt one_wallet 120 wallet).1
check-check_and_record_attempt_example =
    check-check_and_record_attempt one_wallet 120 wallet (omega arith)

check_and_record_attempt-evict_expired_example :
    (check_and_record_attempt (evict_expired one_wallet 200) 210 wallet).1
    ≡ (check_and_record_attempt one_wallet 210 wallet).1
check_and_record_attempt-evict_expired_example =
    check_and_record_attempt-evict_expired one_wallet 200 210 wallet (omega arith)
