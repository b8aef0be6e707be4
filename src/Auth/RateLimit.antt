-- ===== src/Auth/RateLimit.antt =====
-- src/auth/rate_limit.rs: the per-key and the per-address limiter. The token bucket is the
-- `governor` crate's, a parameter: a fresh bucket for a quota, and a test that spends a cell.
pub mod Laws
mod Crowd
pub mod Race
use executor_node.Prelude.{
  ℕ, ◌+◌, ◌-◌, ◌/◌, max, Bool, true, false, not, ◌&&◌, Option, none, some, [], Bytes, Bytes_eq,
  HasTest, ltb, leb, if◌then◌else◌, length, Result, ok, err, map_err, is_some,
}
use executor_node.Clock.{from_secs}
use executor_node.Map.{Map, get, contains_key, insert, retain}
use executor_node.Auth.Ip.{IpAddr, IpAddr_eq}

-- `Quota::per_minute`, `GovernorLimiter::direct` and `GovernorLimiter::check`. A quota is its
-- requests per minute.
pub record Governor : Type 1 where
  pub Limiter : Type 0
  pub direct : ℕ → Limiter
  pub check : Limiter → ℕ → Limiter × Bool

abbrev pub max_tracked_keys : ℕ
max_tracked_keys = 10000

abbrev pub max_tracked_ips : ℕ
max_tracked_ips = 50000

abbrev pub entry_ttl : ℕ
entry_ttl = from_secs 300

abbrev pub ip_entry_ttl : ℕ
ip_entry_ttl = from_secs 300

-- `u64::div_ceil`
abbrev div_ceil : ℕ → ℕ → ℕ
div_ceil a b = (a + b - 1) / b

module _ (g : Governor) where
  -- The limiter with its last-seen time.
  abbrev pub Entry : Type 0
  Entry = g.Limiter × ℕ

  -- The fields of `RateLimiter` and of `PerIpRateLimiter`, which differ in their key.
  pub record Limiters (K : Type 0) : Type 0 where
    pub limiters : Map K Entry
    pub quota : ℕ
    pub retry_after_secs : ℕ

  unfoldable pub new : {K : Type 0} → ℕ → Limiters K
  new requests_per_minute =
      let clamped = max requests_per_minute 1 in
      record { limiters = []; quota = clamped; retry_after_secs = max (div_ceil 60 clamped) 1 }

  module _ {K : Type 0} ⦃e : HasTest K⦄ where
    -- The entry, or a fresh one, after `or_insert_with`.
    unfoldable pub limiter_of : Limiters K → Option Entry → g.Limiter
    limiter_of r none = g.direct r.quota
    limiter_of r (some (lim, seen)) = lim

    -- The three accesses of the two `check` methods, each of which takes its lock by itself. First
    -- the test on the map, by the map's limit.
    unfoldable pub passes_guard : ℕ → Limiters K → K → Bool
    passes_guard most r k = not (not (contains_key k r.limiters) && leb most (length r.limiters))

    -- Then the entry, made if it is not there, with its last-seen time.
    unfoldable pub enter_entry : Limiters K → ℕ → K → Limiters K
    unfolding limiter_of
    enter_entry r now k = record r {
      limiters = insert k (limiter_of r (get k r.limiters), now) r.limiters;
    }

    -- Then the cell of the entry's bucket.
    unfoldable pub spend_cell : Limiters K → ℕ → K → Entry → Limiters K × Bool
    spend_cell r now k (lim, seen) = (
      record r { limiters = insert k ((g.check lim now).0, seen) r.limiters },
      (g.check lim now).1,
    )

    -- The call run alone. The answer is whether the request is allowed.
    unfoldable pub check_limit : ℕ → Limiters K → ℕ → K → Limiters K × Bool
    unfolding passes_guard enter_entry spend_cell limiter_of
    check_limit most r now k =
        if not (passes_guard most r k)
        then (r, false)
        else spend_cell (enter_entry r now k) now k (limiter_of r (get k r.limiters), now)

    unfoldable pub evict_with_ttl : Limiters K → ℕ → ℕ → Limiters K
    evict_with_ttl r now ttl = record r { limiters = retain (λ x. ltb (now - x.1) ttl) r.limiters }

  -- `RateLimiter`
  abbrev pub RateLimiter : Type 0
  RateLimiter = Limiters Bytes

  abbrev allowed_or : {E : Type 0} → E → Bool → Result E (Unit {0})
  allowed_or e true = ok tt
  allowed_or e false = err e

  unfoldable pub check : RateLimiter → ℕ → Bytes → RateLimiter × Bool
  check r now api_key = check_limit max_tracked_keys r now api_key

  unfoldable pub check_with_retry : RateLimiter → ℕ → Bytes → RateLimiter × Result ℕ (Unit {0})
  check_with_retry r now key =
      ((check r now key).0, allowed_or r.retry_after_secs (check r now key).1)

  unfoldable pub evict_stale : RateLimiter → ℕ → RateLimiter
  evict_stale r now = evict_with_ttl r now entry_ttl

  -- `PerIpRateLimiter`
  abbrev pub PerIpRateLimiter : Type 0
  PerIpRateLimiter = Limiters IpAddr

  unfoldable pub check_ip : PerIpRateLimiter → ℕ → IpAddr → PerIpRateLimiter × Result ℕ (Unit {0})
  check_ip r now ip = (
    (check_limit max_tracked_ips r now ip).0,
    allowed_or r.retry_after_secs (check_limit max_tracked_ips r now ip).1,
  )

  unfoldable pub evict_stale_ips : PerIpRateLimiter → ℕ → PerIpRateLimiter
  evict_stale_ips r now = evict_with_ttl r now ip_entry_ttl
