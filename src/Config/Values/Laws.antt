-- ===== src/Config/Values/Laws.antt =====
-- Which values of src/config.rs the server starts with.
use executor_node.Prelude.{
  ℕ, ◌≤◌, ◌≡◌, ◌≢◌, ap, ◌∙◌, inl, inr, true, ◌&&◌, Option, none, some, List, [], map, ◌∷◌, Bytes,
  All, arith, leb, ok, Bool-cases, Option-cases, Result-cases,
}
use executor_node.Text.{parse_u64}
use executor_node.Config.Values.{
  Uri, dev, prod, Environment, is_origin, trim, parse_origin, parse_origins, parse_cors_origins,
  parse_challenge_ttl_secs, checked_ttl, parse_paired_session_concurrency,
}

checked_ttl-ok : (n ttl : ℕ) → checked_ttl n ≡ ok ttl → (1 ≤ ttl) × (ttl ≤ 300)
checked_ttl-ok n ttl h = ground arith

-- A lifetime of the challenges that is taken lies between 1 and 300 seconds, whatever is set.
pub parse_challenge_ttl_secs_bounds :
    (value : Option Bytes) (ttl : ℕ)
    → parse_challenge_ttl_secs value ≡ ok ttl
    → (1 ≤ ttl) × (ttl ≤ 300)
unfolding parse_challenge_ttl_secs
parse_challenge_ttl_secs_bounds none ttl h = checked_ttl-ok 180 ttl h
parse_challenge_ttl_secs_bounds (some value) ttl h = elim (Option-cases (parse_u64 value)) [
  | inl garbled ↦ absurd (ground (arith, rw (garbled, parse_challenge_ttl_secs) at h))
  | inr (n, read) ↦ checked_ttl-ok n ttl (rw (read, parse_challenge_ttl_secs) at h)
]

-- A number of paired sessions at a time that is taken lies between 1 and 128.
parse_paired_session_concurrency_bounds :
    (value : Option Bytes) (count : ℕ)
    → parse_paired_session_concurrency value ≡ ok count
    → (1 ≤ count) × (count ≤ 128)
unfolding parse_paired_session_concurrency
parse_paired_session_concurrency_bounds none count h = ground arith
parse_paired_session_concurrency_bounds (some value) count h =
    elim (Option-cases (parse_u64 (trim value))) [
      | inl garbled ↦ absurd (ground (arith, rw (garbled, parse_paired_session_concurrency) at h))
      | inr (n, read) ↦ elim (Bool-cases (leb 1 n && leb n 128)) [
        | inr outside ↦
            absurd (ground (arith, rw (read, outside, parse_paired_session_concurrency) at h))
        | inl inside ↦
            let whole = rw (read, inside, parse_paired_session_concurrency) at h in
            ground (arith, whole)
      ]
    ]

module _ (parse_uri : Bytes → Option Uri) (header_value : Bytes → Option Bytes) where
  -- A bare origin: a scheme of the web, an authority, no path and no query.
  abbrev pub IsBare : Bytes → Type 0
  IsBare value =
      (uri : Uri) × (parse_uri value ≡ some uri) × (is_origin parse_uri header_value uri ≡ true)

  parse_origin-IsBare :
      (value header : Bytes)
      → parse_origin parse_uri header_value value ≡ ok header
      → IsBare value × (header_value value ≡ some header)
  unfolding parse_origin
  parse_origin-IsBare value header h = elim (Option-cases (parse_uri value)) [
    | inl garbled ↦ absurd (ground (arith, rw (garbled, parse_origin) at h))
    | inr (uri, read) ↦ elim (Bool-cases (is_origin parse_uri header_value uri)) [
      | inr other ↦ absurd (ground (arith, rw (read, other, parse_origin) at h))
      | inl bare ↦ elim (Option-cases (header_value value)) [
        | inl refused ↦ absurd (ground (arith, rw (read, bare, refused, parse_origin) at h))
        | inr (x, made) ↦
            let whole = rw (read, bare, made, parse_origin) at h in
            ((uri, read, bare), made ∙ ap some (ground (arith, whole)))
      ]
    ]
  ]

  parse_origins-IsBare :
      (values headers : List Bytes)
      → parse_origins parse_uri header_value values ≡ ok headers
      → All IsBare values × (map header_value values ≡ map some headers)
  unfolding parse_origins
  parse_origins-IsBare [] headers h =
      let same : [] ≡ headers = ground (arith, h) in (tt, ap (map some) same)
  parse_origins-IsBare (value ∷ values) headers h =
      elim (Result-cases (parse_origin parse_uri header_value value)) [
        | inr (e, refused) ↦ absurd (ground (arith, rw (refused, parse_origins) at h))
        | inl (x, read) ↦ elim (Result-cases (parse_origins parse_uri header_value values)) [
          | inr (e, refused) ↦ absurd (ground (arith, rw (read, refused, parse_origins) at h))
          | inl (later, rest) ↦
              let whole = rw (read, rest, parse_origins) at h in
              let (bare, made) = parse_origin-IsBare value x read in
              let (all_bare, all_made) = parse_origins-IsBare values later rest in
              let same : x ∷ later ≡ headers = ground (arith, whole) in
              (
                (bare, all_bare),
                ap (λ o. o ∷ map header_value values) made
                    ∙ ap (λ l. some x ∷ l) all_made
                    ∙ ap (map some) same,
              )
        ]
      ]

  -- The origins that the server answers are those that are set, in their order, and each of them is a bare origin. In production there is at least one.
  pub parse_cors_origins-IsBare :
      (values : List Bytes) (environment : Environment) (headers : List Bytes)
      → parse_cors_origins parse_uri header_value values environment ≡ ok headers
      → All IsBare values
        × (map header_value values ≡ map some headers)
        × ((environment ≡ prod) → headers ≢ [])
  unfolding parse_cors_origins parse_origins
  parse_cors_origins-IsBare [] prod headers h = absurd (ground arith)
  parse_cors_origins-IsBare [] dev headers h =
      let (bare, made) = parse_origins-IsBare [] headers h in
      (bare, made, λ production. absurd (ground (arith, production)))
  parse_cors_origins-IsBare (value ∷ values) environment headers h =
      let (bare, made) = parse_origins-IsBare (value ∷ values) headers h in
      (bare, made, λ production empty. ground (arith, made, ap (map some) empty))
