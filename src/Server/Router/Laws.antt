-- ===== src/Server/Router/Laws.antt =====
-- What the order of the layers of src/server.rs guarantees.
use executor_node.Prelude.{
  ℕ, ◌≡◌, ◌≢◌, refl, sym, ap, ◌∙◌, subst, inl, inr, Bool, true, false, ◌&&◌, ◌||◌, ◌==◌, Option,
  some, List, [], ◌∷◌, Bytes, bytes, bytes_eq, arith, leb, all, All, and-eq-true, ok, err,
  Bool-cases, Option-cases, Result-cases,
}
use executor_node.Error.{AppError}
use executor_node.Auth.ApiKey.{api_key_auth}
use executor_node.Auth.ClientIp.{extract_client_ip}
use executor_node.Auth.Ip.{IpAddr, IpAddr_eq}
use executor_node.Map.{get}
use executor_node.Auth.RateLimit.{Governor, PerIpRateLimiter, max_tracked_ips, check_ip}
use executor_node.Auth.RateLimit.Laws.{check_other}
use executor_node.Server.Layers.{
  Layer, body_limit, default_body_limit, body_timeout, min_duration, per_ip_rate_limit, auth,
  session_gate, rate_limit, attest_rate_limit, cors, trace, Request, Gates, Passage, enter,
  enter_all, auth_middleware, per_ip_rate_limit_middleware,
}
use executor_node.Server.Router.{Route, create_router, transport_limit}

-- The three paths that anyone may read.
abbrev pub is_public : Route → Bool
is_public r =
    bytes_eq (bytes r.path) (bytes "/health")
    || (bytes_eq (bytes r.path) (bytes "/status") || bytes_eq (bytes r.path) (bytes "/metrics"))

-- A layer that buffers no body, takes no slot and spends no key's allowance.
abbrev pub is_cheap : Layer → Bool
is_cheap (body_limit most) = true
is_cheap (default_body_limit most) = true
is_cheap (body_timeout wait) = true
is_cheap per_ip_rate_limit = true
is_cheap cors = true
is_cheap trace = true
is_cheap _ = false

abbrev pub is_auth : Layer → Bool
is_auth auth = true
is_auth _ = false

-- The key is checked, and before it stand only such layers.
abbrev pub auth_first : List Layer → Bool
auth_first [] = false
auth_first (layer ∷ layers) = is_auth layer || (is_cheap layer && auth_first layers)

-- The limits on a body that are inside.
abbrev pub limits_le : ℕ → List Layer → Bool
limits_le most [] = true
limits_le most (body_limit n ∷ layers) = leb n most && limits_le most layers
limits_le most (default_body_limit n ∷ layers) = leb n most && limits_le most layers
limits_le most (layer ∷ layers) = limits_le most layers

abbrev pub is_guarded : ℕ → Route → Bool
is_guarded most r = (is_public r || auth_first r.layers) && limits_le most r.layers

routes_guarded :
    (validation_only paired_enabled : Bool)
    → all
        (is_guarded (transport_limit paired_enabled))
        (create_router validation_only paired_enabled)
      ≡ true
unfolding create_router bytes_eq
routes_guarded true true = refl
routes_guarded true false = refl
routes_guarded false true = refl
routes_guarded false false = refl

module _ (g : Governor) (ct_eq : Bytes → Bytes → Bool) (parse_ip : Bytes → Option IpAddr) where
  -- Nothing but the allowance of the request's own address is spent: what the limiter holds for any
  -- other address is the same, and so is all of it if the address is unknown.
  abbrev pub IsFree : Request → Gates g ct_eq parse_ip → Gates g ct_eq parse_ip → Type 0
  IsFree r s s' =
      ((ip : IpAddr)
        → extract_client_ip parse_ip r.real_ip_header r.peer ≢ some ip
        → get ip s'.per_ip_rate_limiter.limiters ≡ get ip s.per_ip_rate_limiter.limiters)
      × (s'.api_keys ≡ s.api_keys)
      × (s'.rate_limiter ≡ s.rate_limiter)
      × (s'.attest_rate_limiter ≡ s.attest_rate_limiter)
      × (s'.buffered ≡ s.buffered)
      × (s'.slots_taken ≡ s.slots_taken)

  check_ip_other :
      (limiter : PerIpRateLimiter g) (now : ℕ) (addr ip : IpAddr)
      → ip ≢ addr
      → get ip (check_ip g limiter now addr).0.limiters ≡ get ip limiter.limiters
  unfolding check_ip
  check_ip_other limiter now addr ip differ = elim (Bool-cases (ip == addr)) [
    | inl same ↦ absurd (differ ((IpAddr_eq.test_iff ip addr).0 same))
    | inr other ↦ check_other g max_tracked_ips limiter now ip addr other
  ]

  per_ip-IsFree :
      (s : Gates g ct_eq parse_ip) (now : ℕ) (r : Request)
      → IsFree r s (per_ip_rate_limit_middleware g ct_eq parse_ip s now r).0
  unfolding per_ip_rate_limit_middleware
  per_ip-IsFree s now r = elim (Option-cases (extract_client_ip parse_ip r.real_ip_header r.peer)) [
    | inl unknown ↦
        rw (unknown, per_ip_rate_limit_middleware) (λ ip h. refl, refl, refl, refl, refl, refl)
    | inr (addr, known) ↦
        let frame : (ip : IpAddr)
            → some addr ≢ some ip
            → get ip (check_ip g s.per_ip_rate_limiter now addr).0.limiters
              ≡ get ip s.per_ip_rate_limiter.limiters =
          λ ip h. check_ip_other s.per_ip_rate_limiter now addr ip (λ e. h (ap some (sym e))) in
        elim (Result-cases (check_ip g s.per_ip_rate_limiter now addr).1) [
          | inl (u, passed) ↦
              rw (known, passed, per_ip_rate_limit_middleware) (frame, refl, refl, refl, refl, refl)
          | inr (n, refused) ↦
              rw (known, refused, per_ip_rate_limit_middleware)
                (frame, refl, refl, refl, refl, refl)
        ]
  ]

  IsFree-if_same :
      (s : Gates g ct_eq parse_ip) (r : Request) (s' : Gates g ct_eq parse_ip)
      → s' ≡ s
      → IsFree r s s'
  IsFree-if_same s r s' e =
      subst (λ x. IsFree r s x) (sym e) (λ ip h. refl, refl, refl, refl, refl, refl)

  cheap-IsFree :
      (layer : Layer) (s : Gates g ct_eq parse_ip) (now : ℕ) (r : Request)
      → is_cheap layer ≡ true
      → IsFree r s (enter g ct_eq parse_ip layer s now r).0
  unfolding enter
  cheap-IsFree (body_limit most) s now r h =
      IsFree-if_same s r (enter g ct_eq parse_ip (body_limit most) s now r).0 (ground arith)
  cheap-IsFree (default_body_limit most) s now r h =
      IsFree-if_same s r (enter g ct_eq parse_ip (default_body_limit most) s now r).0 (ground arith)
  cheap-IsFree (body_timeout wait) s now r h =
      IsFree-if_same s r (enter g ct_eq parse_ip (body_timeout wait) s now r).0 (ground arith)
  cheap-IsFree per_ip_rate_limit s now r h = per_ip-IsFree s now r
  cheap-IsFree cors s now r h =
      IsFree-if_same s r (enter g ct_eq parse_ip cors s now r).0 (ground arith)
  cheap-IsFree trace s now r h =
      IsFree-if_same s r (enter g ct_eq parse_ip trace s now r).0 (ground arith)
  cheap-IsFree (min_duration policy) s now r h = absurd (ground arith)
  cheap-IsFree auth s now r h = absurd (ground arith)
  cheap-IsFree session_gate s now r h = absurd (ground arith)
  cheap-IsFree rate_limit s now r h = absurd (ground arith)
  cheap-IsFree attest_rate_limit s now r h = absurd (ground arith)

  -- A passage that is refused for free.
  abbrev pub IsTurnedAway : Request → Gates g ct_eq parse_ip → Passage g ct_eq parse_ip → Type 0
  IsTurnedAway r s p = (p.1 ≢ ok tt) × IsFree r s p.0

  -- A cheap layer before layers that turn a request away.
  through :
      (layer : Layer) (layers : List Layer) (s : Gates g ct_eq parse_ip) (now : ℕ) (r : Request)
      → is_cheap layer ≡ true
      → IsTurnedAway r
          (enter g ct_eq parse_ip layer s now r).0
          (enter_all g ct_eq parse_ip layers (enter g ct_eq parse_ip layer s now r).0 now r)
      → IsTurnedAway r s (enter_all g ct_eq parse_ip (layer ∷ layers) s now r)
  unfolding enter_all
  through layer layers s now r h (refused, free) =
      let here = cheap-IsFree layer s now r h in
      elim (Result-cases (enter g ct_eq parse_ip layer s now r).1) [
        | inr (e, stopped) ↦ rw (stopped, enter_all) ((λ k. ground (arith, k)), here)
        | inl (u, passed) ↦
            rw (passed, enter_all)
              (
                refused,
                (
                  λ ip h. free.0 ip h ∙ here.0 ip h,
                  free.1 ∙ here.1,
                  free.2 ∙ here.2,
                  free.3 ∙ here.3,
                  free.4 ∙ here.4,
                  free.5 ∙ here.5,
                ),
              )
      ]

  enter_auth :
      (layer : Layer) (s : Gates g ct_eq parse_ip) (now : ℕ) (r : Request) (e : AppError)
      → is_auth layer ≡ true
      → api_key_auth ct_eq r.api_key_header s.api_keys ≡ err e
      → enter g ct_eq parse_ip layer s now r ≡ (s, err e)
  unfolding enter auth_middleware
  enter_auth auth s now r e h k = rw (k, auth_middleware) refl
  enter_auth (body_limit most) s now r e h k = absurd (ground arith)
  enter_auth (default_body_limit most) s now r e h k = absurd (ground arith)
  enter_auth (body_timeout wait) s now r e h k = absurd (ground arith)
  enter_auth (min_duration policy) s now r e h k = absurd (ground arith)
  enter_auth per_ip_rate_limit s now r e h k = absurd (ground arith)
  enter_auth session_gate s now r e h k = absurd (ground arith)
  enter_auth rate_limit s now r e h k = absurd (ground arith)
  enter_auth attest_rate_limit s now r e h k = absurd (ground arith)
  enter_auth cors s now r e h k = absurd (ground arith)
  enter_auth trace s now r e h k = absurd (ground arith)

  at_auth :
      (layer : Layer) (layers : List Layer) (s : Gates g ct_eq parse_ip) (now : ℕ) (r : Request)
      (e : AppError)
      → enter g ct_eq parse_ip layer s now r ≡ (s, err e)
      → IsTurnedAway r s (enter_all g ct_eq parse_ip (layer ∷ layers) s now r)
  unfolding enter_all
  at_auth layer layers s now r e h =
      let first = enter g ct_eq parse_ip layer s now r in
      let answer : first.1 ≡ err e = ap (λ x. x.1) h in
      let step : enter_all g ct_eq parse_ip (layer ∷ layers) s now r ≡ (first.0, err e) =
        rw (answer, enter_all) refl in
      let whole = step ∙ ap (λ x. (x.0, err e)) h in
      subst (λ p. IsTurnedAway r s p) (sym whole)
        ((λ k. ground (arith, k)), (λ ip h. refl, refl, refl, refl, refl, refl))

  turned_away :
      (layers : List Layer) (s : Gates g ct_eq parse_ip) (now : ℕ) (r : Request) (e : AppError)
      → auth_first layers ≡ true
      → api_key_auth ct_eq r.api_key_header s.api_keys ≡ err e
      → IsTurnedAway r s (enter_all g ct_eq parse_ip layers s now r)
  turned_away [] s now r e h k = absurd (ground arith)
  turned_away (layer ∷ layers) s now r e h k = elim (Bool-cases (is_auth layer)) [
    | inl here ↦ at_auth layer layers s now r e (enter_auth layer s now r e here k)
    | inr other ↦
        let (cheap, later) = and-eq-true (is_cheap layer) (auth_first layers) (rw other at h) in
        let s' = (enter g ct_eq parse_ip layer s now r).0 in
        let same = (cheap-IsFree layer s now r cheap).1 in
        through layer layers s now r cheap (
          turned_away layers s' now r e later
            (ap (λ keys. api_key_auth ct_eq r.api_key_header keys) same ∙ k))
  ]

  all-IsTurnedAway :
      (most : ℕ) (routes : List Route) (s : Gates g ct_eq parse_ip) (now : ℕ) (r : Request)
      (e : AppError)
      → all (is_guarded most) routes ≡ true
      → api_key_auth ct_eq r.api_key_header s.api_keys ≡ err e
      → All
          (λ route.
            is_public route ≡ false
            → IsTurnedAway r s (enter_all g ct_eq parse_ip route.layers s now r))
          routes
  all-IsTurnedAway most [] s now r e h k = tt
  all-IsTurnedAway most (route ∷ routes) s now r e h k =
      let (here, later) = and-eq-true (is_guarded most route) (all (is_guarded most) routes) h in
      let (guarded, _) =
        and-eq-true (is_public route || auth_first route.layers) (limits_le most route.layers)
          here in
      (
        (λ private. turned_away route.layers s now r e (rw private at guarded) k),
        all-IsTurnedAway most routes s now r e later k,
      )

  -- Whatever the configuration, a request without a listed key reaches no handler of a route but the three public ones, and all that it can cost is the allowance of its own address: nothing that the limiter holds for another address, no key's rate limit, no buffered body and no finalize slot.
  pub create_router-IsTurnedAway :
      (validation_only paired_enabled : Bool) (s : Gates g ct_eq parse_ip) (now : ℕ) (r : Request)
      (e : AppError)
      → api_key_auth ct_eq r.api_key_header s.api_keys ≡ err e
      → All
          (λ route.
            is_public route ≡ false
            → IsTurnedAway r s (enter_all g ct_eq parse_ip route.layers s now r))
          (create_router validation_only paired_enabled)
  create_router-IsTurnedAway validation_only paired_enabled s now r e k =
      all-IsTurnedAway (transport_limit paired_enabled)
        (create_router validation_only paired_enabled) s now r e
        (routes_guarded validation_only paired_enabled) k
