-- ===== src/Validation/Admission.antt =====
-- src/validation/handler.rs: the gates before a validation, on the shared state. The clock is read
-- once for a request.
pub mod Laws
use executor_node.Prelude.{
  ℕ, ◌-◌, ◌*◌, max, Bool, true, false, not, ◌&&◌, Option, none, some, List, [], Bytes, Bytes_eq,
  ltb, if◌then◌else◌, Result, ok, err, is_some_and, and_then, unwrap_or,
}
use executor_node.Clock.{as_secs}
use executor_node.Error.{
  AppError, ip_rate_limited, cross_wallet_cooldown_active, wallet_rate_limited, validation_failed,
}
use executor_node.Map.{get, insert, remove}
use executor_node.Auth.Ip.{IpAddr, IpAddr_eq, v4}
use executor_node.Auth.ClientIp.{extract_client_ip}
use executor_node.Auth.CrossWallet.{Hasher, check_cooldown}
use executor_node.Integrator.Tracker.{check_and_deduct, refund}
use executor_node.Integrator.WalletAttempts.{check_and_record_attempt, refund_on_success}
use executor_node.Validation.Request.{ClientSignals}
use executor_node.State.{AppState}

-- A step: the state that it leaves, and its result.
abbrev pub Step : Type 0 → Type 0
Step A = AppState × Result AppError A

-- The client's address. (The user agent is an argument of the handler: it is bounded there.)
unfoldable pub request_ip : (Bytes → Option IpAddr) → Option Bytes → Option IpAddr → IpAddr
unfolding extract_client_ip
request_ip parse real_ip_header peer =
    unwrap_or (extract_client_ip parse real_ip_header peer) (v4 127 0 0 1)

unfoldable pub check_probing_block : AppState → ℕ → IpAddr → Step (Unit {0})
check_probing_block s now ip = elim (get ip s.probing_blocklist) [
  | none ↦ (s, ok tt)
  | some expire_time ↦
      if ltb now expire_time
      then (s, err (ip_rate_limited (max (as_secs (expire_time - now)) 1)))
      else (record s { probing_blocklist = remove ip s.probing_blocklist }, ok tt)
]

unfoldable pub check_cross_wallet_cooldown :
    Hasher → AppState → ℕ → IpAddr → Bytes → Bytes → Step (Unit {0})
unfolding check_cooldown
check_cross_wallet_cooldown hash s now ip user_agent wallet_id =
    let (cooldowns, answer) =
      check_cooldown hash s.cross_wallet_cooldown now ip user_agent wallet_id in
    let checked : AppState = record s { cross_wallet_cooldown = cooldowns } in
    elim answer [
      | ok _ ↦ (checked, ok tt)
      | err remaining_secs ↦
          if s.cross_wallet_cooldown_enforce
          then (checked, err (cross_wallet_cooldown_active remaining_secs))
          else (checked, ok tt)
    ]

-- The refusal of a driven browser. The logging that follows it has no effect.
unfoldable pub screen_client_signals : AppState → Option ClientSignals → Result AppError (Unit {0})
screen_client_signals s client_signals =
    if s.automation_webdriver_reject
      && (s.has_validator
          && is_some_and (and_then client_signals (λ c. c.automation)) (λ a. a.webdriver))
    then err (validation_failed (some "automated_browser_detected"))
    else ok tt

-- The part of `admit_attempt` after the attempt is recorded.
unfoldable pub deduct_quota : AppState → Bytes → Bytes → Step ℕ
unfolding check_and_deduct refund_on_success
deduct_quota s api_key wallet =
    let (tracker, answer) = check_and_deduct s.tracker api_key in
    elim answer [
      | ok remaining ↦ (record s { tracker = tracker }, ok remaining)
      | err e ↦ (
        record s {
          tracker = tracker;
          wallet_attempts = refund_on_success s.wallet_attempts wallet;
        },
        err e,
      )
    ]

unfoldable pub admit_attempt : AppState → ℕ → Bytes → Bytes → Step ℕ
unfolding check_and_record_attempt deduct_quota
admit_attempt s now api_key wallet =
    let (attempts, answer) = check_and_record_attempt s.wallet_attempts now wallet in
    let recorded : AppState = record s { wallet_attempts = attempts } in
    elim answer [
      | err retry_after_secs ↦ (recorded, err (wallet_rate_limited retry_after_secs))
      | ok _ ↦ deduct_quota recorded api_key wallet
    ]

unfoldable pub refund_infrastructure_failure : AppState → Bytes → Bytes → AppState
unfolding refund refund_on_success
refund_infrastructure_failure s api_key wallet = record s {
  tracker = refund s.tracker api_key;
  wallet_attempts = refund_on_success s.wallet_attempts wallet;
}
