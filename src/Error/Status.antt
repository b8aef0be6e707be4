-- ===== src/Error/Status.antt =====
-- What the statuses of src/error.rs say.
use executor_node.Prelude.{ℕ, ◌≡◌, refl, ◌⊎◌, inl, inr, none, Bool, true, false, is_some}
use executor_node.Error.{
  AppError, into_response, wallet_rate_limited, invalid_request, study_route_limited,
  ip_rate_limited, cross_wallet_cooldown_active, paired_busy,
}

-- The errors by which a limiter sends a client away for a while.
unfoldable pub is_wait : AppError → Bool
is_wait (study_route_limited n) = true
is_wait (ip_rate_limited n) = true
is_wait (wallet_rate_limited n) = true
is_wait (cross_wallet_cooldown_active n) = true
is_wait paired_busy = true
is_wait _ = false

-- A body names a wait exactly for the errors that are a wait. The header, where there is one, has the body's value, and of the waits only the wallet's attempt limit has no header.
pub retry_after-into_response :
    (e : AppError)
    → (is_some (into_response e).retry_after ≡ is_wait e)
      × (((into_response e).retry_after_header ≡ (into_response e).retry_after)
          ⊎ ((n : ℕ) × (e ≡ wallet_rate_limited n) × ((into_response e).retry_after_header ≡ none)))
unfolding into_response is_wait
retry_after-into_response (wallet_rate_limited n) = (refl, inr (n, refl, refl))
retry_after-into_response (invalid_request m) = (refl, inl refl)
retry_after-into_response _ = (refl, inl refl)
