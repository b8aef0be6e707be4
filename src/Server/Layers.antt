-- ===== src/Server/Layers.antt =====
-- src/server.rs: the middlewares, each with what it checks and spends. A request is what they
-- read of it. The token bucket, the key comparison and the address parser are parameters.
use executor_node.Prelude.{
  ℕ, ◌+◌, Bool, true, false, Option, none, some, List, [], ◌∷◌, Bytes, bytes, Bytes_eq, ltb,
  if◌then◌else◌, Result, ok, err, is_some_and, unwrap_or,
}
use executor_node.Error.{AppError, rate_limited, ip_rate_limited, paired_busy, payload_too_large}
use executor_node.Auth.Ip.{IpAddr, IpAddr_eq}
use executor_node.Auth.ApiKey.{api_key_auth}
use executor_node.Auth.ClientIp.{extract_client_ip}
use executor_node.Auth.RateLimit.{Governor, RateLimiter, PerIpRateLimiter, check, check_ip}
use executor_node.Server.Timing.{BodyPolicy}

-- A layer with what it is made with. The cross-origin and the trace layer let every request by.
pub data Layer : Type 0 where
  body_limit : ℕ → Layer
  default_body_limit : ℕ → Layer
  body_timeout : ℕ → Layer
  min_duration : BodyPolicy → Layer
  per_ip_rate_limit auth session_gate rate_limit attest_rate_limit cors trace : Layer

-- What a request shows to the layers: its headers, its peer, its declared length, how its body reads
-- under a policy, and whether a finalize slot frees in time.
pub record Request : Type 0 where
  pub api_key_header : Option Bytes
  pub real_ip_header : Option Bytes
  pub peer : Option IpAddr
  pub content_length : Option ℕ
  pub body : BodyPolicy → Result AppError Bytes
  pub slot_frees : Bool

module _ (g : Governor) (ct_eq : Bytes → Bytes → Bool) (parse_ip : Bytes → Option IpAddr) where
  -- What the layers read and write.
  pub record Gates : Type 0 where
    pub api_keys : List Bytes
    pub rate_limiter : RateLimiter g
    pub attest_rate_limiter : RateLimiter g
    pub per_ip_rate_limiter : PerIpRateLimiter g
    pub per_ip_rate_limit_rejected : ℕ
    -- Bodies that were read in full.
    pub buffered : ℕ
    -- Finalize slots that were handed out.
    pub slots_taken : ℕ

  abbrev pub Passage : Type 0
  Passage = Gates × Result AppError (Unit {0})

  abbrev pub key_of : Request → Bytes
  key_of r = unwrap_or r.api_key_header (bytes "authenticated")

  abbrev allowed : Gates → AppError → Bool → Passage
  allowed s e true = (s, ok tt)
  allowed s e false = (s, err e)

  unfoldable pub auth_middleware : Gates → Request → Passage
  unfolding api_key_auth
  auth_middleware s r = elim (api_key_auth ct_eq r.api_key_header s.api_keys) [
    | err e ↦ (s, err e)
    | ok key ↦ (s, ok tt)
  ]

  unfoldable pub rate_limit_middleware : Gates → ℕ → Request → Passage
  unfolding check
  rate_limit_middleware s now r =
      let (limiter, passes) = check g s.rate_limiter now (key_of r) in
      allowed (record s { rate_limiter = limiter }) rate_limited passes

  unfoldable pub attest_rate_limit_middleware : Gates → ℕ → Request → Passage
  unfolding check
  attest_rate_limit_middleware s now r =
      let (limiter, passes) = check g s.attest_rate_limiter now (key_of r) in
      allowed (record s { attest_rate_limiter = limiter }) rate_limited passes

  unfoldable pub per_ip_rate_limit_middleware : Gates → ℕ → Request → Passage
  unfolding extract_client_ip check_ip
  per_ip_rate_limit_middleware s now r = elim (extract_client_ip parse_ip r.real_ip_header r.peer) [
    | none ↦ (s, ok tt)
    | some addr ↦
        let (limiter, answer) = check_ip g s.per_ip_rate_limiter now addr in
        let checked : Gates = record s { per_ip_rate_limiter = limiter } in
        elim answer [
          | ok _ ↦ (checked, ok tt)
          | err retry_after_secs ↦ (
            record checked { per_ip_rate_limit_rejected = checked.per_ip_rate_limit_rejected + 1 },
            err (ip_rate_limited retry_after_secs),
          )
        ]
  ]

  unfoldable pub session_gate_middleware : Gates → Request → Passage
  session_gate_middleware s r =
      if r.slot_frees
      then (record s { slots_taken = s.slots_taken + 1 }, ok tt)
      else (s, err paired_busy)

  -- `RequestBodyLimitLayer`, by the declared length.
  abbrev body_limit_layer : Gates → ℕ → Request → Passage
  body_limit_layer s most r =
      if is_some_and r.content_length (λ length. ltb most length)
      then (s, err payload_too_large)
      else (s, ok tt)

  -- The part of `min_duration_middleware` that reads the body.
  abbrev buffer_body : Gates → BodyPolicy → Request → Passage
  buffer_body s policy r = elim (r.body policy) [
    | err e ↦ (s, err e)
    | ok read ↦ (record s { buffered = s.buffered + 1 }, ok tt)
  ]

  unfoldable pub enter : Layer → Gates → ℕ → Request → Passage
  unfolding auth_middleware rate_limit_middleware attest_rate_limit_middleware
      per_ip_rate_limit_middleware session_gate_middleware
  enter (body_limit most) s now r = body_limit_layer s most r
  enter (default_body_limit most) s now r = (s, ok tt)
  enter (body_timeout wait) s now r = (s, ok tt)
  enter (min_duration policy) s now r = buffer_body s policy r
  enter per_ip_rate_limit s now r = per_ip_rate_limit_middleware s now r
  enter auth s now r = auth_middleware s r
  enter session_gate s now r = session_gate_middleware s r
  enter rate_limit s now r = rate_limit_middleware s now r
  enter attest_rate_limit s now r = attest_rate_limit_middleware s now r
  enter cors s now r = (s, ok tt)
  enter trace s now r = (s, ok tt)

  -- The layers from the outermost in, up to the first that refuses.
  unfoldable pub enter_all : List Layer → Gates → ℕ → Request → Passage
  unfolding enter
  enter_all [] s now r = (s, ok tt)
  enter_all (layer ∷ layers) s now r =
      let (entered, answer) = enter layer s now r in
      elim answer [ err e ↦ (entered, err e) | ok _ ↦ enter_all layers entered now r ]
