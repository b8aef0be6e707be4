-- ===== src/Status/Metrics.antt =====
-- src/status/status_metrics.rs: the counters, which wrap at 64 bits, and the relayer's balance with
-- the time it was read at. src/status/metrics_handler.rs prints the counters.
use Prim.Native.String.{String}
use executor_node.Prelude.{ℕ, ◌+◌, ◌-◌, ◌%◌, List, [], ◌∷◌, Option, unwrap_or}
use executor_node.Clock.{u64_mod}

pub record StatusMetrics : Type 0 where
  pub total_verifications_relayed : ℕ
  pub total_attestations_issued : ℕ
  pub total_validations_performed : ℕ
  pub total_per_ip_rate_limit_rejected : ℕ
  pub start_time : ℕ
  -- The balance, and the time of its reading.
  pub balance_cache : ℕ × ℕ

-- The clock, if it stands after the epoch.
abbrev pub new : Option ℕ → StatusMetrics
new clock = record {
  total_verifications_relayed = 0;
  total_attestations_issued = 0;
  total_validations_performed = 0;
  total_per_ip_rate_limit_rejected = 0;
  start_time = unwrap_or clock 0;
  balance_cache = (0, 0);
}

-- `fetch_add(1)`
abbrev fetch_add : ℕ → ℕ
fetch_add n = (n + 1) % u64_mod

abbrev pub increment_verifications : StatusMetrics → StatusMetrics
increment_verifications m = record m {
  total_verifications_relayed = fetch_add m.total_verifications_relayed;
}

abbrev pub increment_attestations : StatusMetrics → StatusMetrics
increment_attestations m = record m {
  total_attestations_issued = fetch_add m.total_attestations_issued;
}

abbrev pub increment_validations : StatusMetrics → StatusMetrics
increment_validations m = record m {
  total_validations_performed = fetch_add m.total_validations_performed;
}

abbrev pub increment_per_ip_rate_limit_rejected : StatusMetrics → StatusMetrics
increment_per_ip_rate_limit_rejected m = record m {
  total_per_ip_rate_limit_rejected = fetch_add m.total_per_ip_rate_limit_rejected;
}

abbrev pub update_cached_balance : StatusMetrics → ℕ → ℕ → StatusMetrics
update_cached_balance m balance fetched_at = record m { balance_cache = (balance, fetched_at) }

-- The samples that are printed, without the lines that describe them.
unfoldable pub render_metrics : StatusMetrics → Option ℕ → List (String × ℕ)
render_metrics m clock =
    ("entros_verifications_relayed_total", m.total_verifications_relayed)
    ∷ ("entros_attestations_issued_total", m.total_attestations_issued)
    ∷ ("entros_validations_performed_total", m.total_validations_performed)
    ∷ ("entros_per_ip_rate_limit_rejected_total", m.total_per_ip_rate_limit_rejected)
    ∷ ("entros_uptime_seconds", unwrap_or clock m.start_time - m.start_time)
    ∷ []
