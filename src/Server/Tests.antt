-- ===== src/Server/Tests.antt =====
-- Runs of src/server.rs, src/timing.rs and src/padding.rs, and the theorems at concrete inputs.
use executor_node.Prelude.{
  ℕ, ◌+◌, ◌≡◌, ◌≤◌, refl, true, false, Bool, none, some, [], ◌∷◌, Bytes, bytes, bytes_eq, ok, All,
  arith, length,
}
use executor_node.Error.{unauthorized, payload_too_large}
use executor_node.Auth.ApiKey.{api_key_auth, is_valid_api_key, matches}
use executor_node.Auth.Ip.{v4}
use executor_node.Auth.RateLimit.{Governor, Limiters}
use executor_node.Server.Timing.{
  Upload, Timed, min_duration_middleware, handler_min_duration, classify_body_error, other,
  length_limit, limit,
}
use executor_node.Server.Timing.Laws.{min_duration_middleware_lem}
use executor_node.Server.Layers.{Request, Gates, enter_all}
use executor_node.Server.Router.{create_router, verify_group, route_layer}
use executor_node.Server.Router.Laws.{is_public, IsTurnedAway, create_router-IsTurnedAway}

-- The routes of the two extreme configurations.
all_routes : length (create_router false true) ≡ 14
unfolding create_router verify_group route_layer
all_routes = refl

validation_routes : length (create_router true false) ≡ 6
unfolding create_router verify_group route_layer
validation_routes = refl

-- Behind the error of the body library stands the limit.
large : classify_body_error (other ∷ length_limit ∷ []) ≡ payload_too_large
unfolding classify_body_error
large = refl

abbrev upload : Upload
upload = record { takes = 7000000000; read = λ most. ok [] }

-- A refusal of the rate limiter, at once.
abbrev refused : Bytes → ℕ → Timed Bool
refused body start = (start + 5, false)

min_duration_middleware_lem_example :
    ((min_duration_middleware (limit 1024) 100 upload (λ e. true) refused).1 ≡ false)
    × (100 + 7000000000 + handler_min_duration
        ≤ (min_duration_middleware (limit 1024) 100 upload (λ e. true) refused).0)
    × (7000000105 ≤ 100 + 7000000000 + handler_min_duration
        → (min_duration_middleware (limit 1024) 100 upload (λ e. true) refused).0
          ≡ 100 + 7000000000 + handler_min_duration)
min_duration_middleware_lem_example =
    min_duration_middleware_lem (limit 1024) 100 upload (λ e. true) refused [] refl refl
      (omega arith)

abbrev bucket : Governor
bucket = record { Limiter = ℕ; direct = λ quota. quota; check = λ cells now. (cells, true) }

abbrev ct_eq : Bytes → Bytes → Bool
ct_eq a b = bytes_eq a b

abbrev limiters : {K : Type 0} → Limiters bucket K
limiters = record { limiters = []; quota = 60; retry_after_secs = 1 }

abbrev gates : Gates bucket ct_eq (λ t. none)
gates = record {
  api_keys = bytes "key" ∷ [];
  rate_limiter = limiters;
  attest_rate_limiter = limiters;
  per_ip_rate_limiter = limiters;
  per_ip_rate_limit_rejected = 0;
  buffered = 0;
  slots_taken = 0;
}

abbrev request : Request
request = record {
  api_key_header = some (bytes "kez");
  real_ip_header = none;
  peer = some (v4 203 0 113 9);
  content_length = none;
  body = λ policy. ok [];
  slot_frees = true;
}

create_router-IsTurnedAway_example :
    All
      (λ route.
        is_public route ≡ false
        → IsTurnedAway bucket ct_eq
            (λ t. none)
            request
            gates
            (enter_all bucket ct_eq (λ t. none) route.layers gates 5 request))
      (create_router false true)
unfolding api_key_auth is_valid_api_key matches bytes_eq
create_router-IsTurnedAway_example =
    create_router-IsTurnedAway bucket ct_eq (λ t. none) false true gates 5 request unauthorized refl
