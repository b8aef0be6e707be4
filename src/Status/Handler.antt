-- ===== src/Status/Handler.antt =====
-- src/status/handler.rs: `status_handler`. The comparison of two slices of one length and the
-- balance on the chain are parameters.
pub mod Laws
use Prim.Native.String.{String}
use executor_node.Prelude.{
  ℕ, ◌-◌, Bool, true, false, not, ◌&&◌, ◌||◌, Option, none, some, List, [], ◌∷◌, Bytes, ltb, nat_eq,
  length, if◌then◌else◌, is_some_and, Result, ok, err,
}
use executor_node.Error.{AppError}
use executor_node.Status.Metrics.{StatusMetrics, update_cached_balance}

abbrev pub balance_cache_ttl_seconds : ℕ
balance_cache_ttl_seconds = 30

-- Without `status`, which is always "ok".
pub record StatusResponse : Type 0 where
  pub uptime_seconds : Option ℕ
  pub verifications_relayed : Option ℕ
  pub attestations_issued : Option ℕ
  pub validations_performed : Option ℕ
  pub relayer_balance_lamports : Option ℕ
  pub sas_configured : Option Bool

abbrev pub public_status : StatusResponse
public_status = record {
  uptime_seconds = none;
  verifications_relayed = none;
  attestations_issued = none;
  validations_performed = none;
  relayer_balance_lamports = none;
  sas_configured = none;
}

module _ (ct_eq : Bytes → Bytes → Bool) where
  -- `any` over the candidates.
  unfoldable pub is_candidate : Bytes → List Bytes → Bool
  is_candidate key [] = false
  is_candidate key (candidate ∷ candidates) =
      (nat_eq (length candidate) (length key) && ct_eq candidate key) || is_candidate key candidates

  unfoldable pub is_authenticated : Option Bytes → List Bytes → Bool
  unfolding is_candidate
  is_authenticated header api_keys = is_some_and header (λ key. is_candidate key api_keys)

  module _ (get_balance : Result AppError ℕ) where
    -- The balance that is told, from the cache or from the chain.
    unfoldable pub read_balance : ℕ → StatusMetrics → StatusMetrics × Result AppError ℕ
    read_balance now m =
        if ltb (now - m.balance_cache.1) balance_cache_ttl_seconds
        then (m, ok m.balance_cache.0)
        else elim get_balance [
          | err e ↦ (m, err e)
          | ok balance ↦ (update_cached_balance m balance now, ok balance)
        ]

    abbrev told : ℕ → Bool → StatusMetrics → ℕ → StatusResponse
    told now has_attestor m balance = record {
      uptime_seconds = some (now - m.start_time);
      verifications_relayed = some m.total_verifications_relayed;
      attestations_issued = some m.total_attestations_issued;
      validations_performed = some m.total_validations_performed;
      relayer_balance_lamports = some balance;
      sas_configured = some has_attestor;
    }

    -- `has_attestor` says whether an attestor is configured.
    unfoldable pub status_handler :
        List Bytes
        → Bool
        → ℕ
        → Option Bytes
        → StatusMetrics
        → StatusMetrics × Result AppError StatusResponse
    unfolding is_authenticated read_balance
    status_handler api_keys has_attestor now header m =
        if not (is_authenticated header api_keys)
        then (m, ok public_status)
        else let (kept, answer) = read_balance now m in
          elim answer [
            | err e ↦ (kept, err e)
            | ok balance ↦ (kept, ok (told now has_attestor kept balance))
          ]
