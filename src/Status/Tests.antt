-- ===== src/Status/Tests.antt =====
-- A run of src/status/handler.rs, and its theorem at a concrete input.
use executor_node.Prelude.{
  ℕ, ◌≡◌, ◌⊎◌, refl, true, false, some, [], ◌∷◌, bytes, bytes_eq, bytes_eq_iff, ok,
}
use executor_node.Status.Metrics.{StatusMetrics, new, increment_verifications, render_metrics}
use executor_node.Status.Handler.{
  StatusResponse, public_status, is_candidate, is_authenticated, read_balance, status_handler,
}
use executor_node.Status.Handler.Laws.{IsHolder, IsRecent, status_handler_lem}

abbrev metrics : StatusMetrics
metrics = record (increment_verifications (new (some 1000))) { balance_cache = (7, 1000) }

printed :
    render_metrics metrics (some 1060)
    ≡ ("entros_verifications_relayed_total", 1)
      ∷ ("entros_attestations_issued_total", 0)
      ∷ ("entros_validations_performed_total", 0)
      ∷ ("entros_per_ip_rate_limit_rejected_total", 0)
      ∷ ("entros_uptime_seconds", 60)
      ∷ []
unfolding render_metrics
printed = refl

abbrev answer : StatusResponse
answer = record {
  uptime_seconds = some 30;
  verifications_relayed = some 1;
  attestations_issued = some 0;
  validations_performed = some 0;
  relayer_balance_lamports = some 9;
  sas_configured = some true;
}

-- After 30 seconds the balance is read again.
read_again :
    status_handler bytes_eq (ok 9) (bytes "key" ∷ []) true 1030 (some (bytes "key")) metrics
    ≡ (record metrics { balance_cache = (9, 1030) }, ok answer)
unfolding status_handler is_authenticated is_candidate read_balance bytes_eq
read_again = refl

status_handler_lem_example :
    ((status_handler bytes_eq (ok 9) (bytes "key" ∷ []) true 1030 (some (bytes "key")) metrics
        ≡ (metrics, ok public_status))
      × (is_authenticated bytes_eq (some (bytes "key")) (bytes "key" ∷ []) ≡ false))
    ⊎ (IsHolder bytes_eq (λ a b e. bytes_eq_iff a b) (some (bytes "key")) (bytes "key" ∷ [])
        × ((balance : ℕ) × (some 9 ≡ some balance)
            × IsRecent bytes_eq
                (λ a b e. bytes_eq_iff a b)
                (ok 9)
                1030
                metrics
                (status_handler bytes_eq
                  (ok 9)
                  (bytes "key" ∷ [])
                  true
                  1030
                  (some (bytes "key"))
                  metrics).0
                balance))
unfolding status_handler is_authenticated is_candidate read_balance bytes_eq
status_handler_lem_example =
    status_handler_lem bytes_eq (λ a b e. bytes_eq_iff a b) (ok 9) (bytes "key" ∷ []) true 1030
      (some (bytes "key")) metrics answer refl
