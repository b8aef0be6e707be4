-- ===== src/Paired/Upstream/Laws.antt =====
-- The bounds of src/upstream.rs.
use executor_node.Prelude.{
  ℕ, ◌+◌, ◌≤◌, ◌<◌, ◌≡◌, subst, inl, inr, false, Option, none, some, List, [], ◌∷◌, ◌++◌, Bytes,
  arith, ltb, min, nat_eq, length, length-append, is_some_and, Bool-cases, Option-cases,
}
use executor_node.Text.{parse_u64}
use executor_node.Paired.Upstream.{RawResponse, valid_retry_after, read_chunks, read_bounded}

-- The chunks that arrived, one after the other.
abbrev pub arrived : List (Option Bytes) → Option Bytes
arrived [] = some []
arrived (none ∷ rest) = none
arrived (some chunk ∷ rest) = elim (arrived rest) [ none ↦ none | some more ↦ some (chunk ++ more) ]

-- A wait that is relayed is at least one second and at most 300.
pub valid_retry_after-le :
    (value : Bytes) (seconds : ℕ)
    → valid_retry_after value ≡ some seconds
    → (1 ≤ seconds) × (seconds ≤ 300)
unfolding valid_retry_after
valid_retry_after-le value seconds h = elim (Option-cases (parse_u64 value)) [
  | inl garbled ↦ absurd (ground (arith, rw (garbled, valid_retry_after) at h))
  | inr (n, parsed) ↦ elim (Bool-cases (nat_eq n 0)) [
    | inl zero_ ↦ absurd (ground (arith, rw (parsed, zero_, valid_retry_after) at h))
    | inr positive ↦
        let same : min n 300 ≡ seconds =
          ground (arith, rw (parsed, positive, valid_retry_after) at h) in
        (omega (arith, same, (positive_of n positive)), omega (arith, same))
  ]
]
  where
    positive_of : (n : ℕ) → nat_eq n 0 ≡ false → 1 ≤ n
    positive_of n h = ground arith

read_chunks-le :
    (limit : ℕ) (chunks : List (Option Bytes)) (body read : Bytes)
    → limit < 18446744073709551615
    → length body ≤ limit
    → read_chunks limit body chunks ≡ some read
    → length read ≤ limit
unfolding read_chunks
read_chunks-le limit [] body read small h e =
    let same : body ≡ read = ground arith in subst (λ x. length x ≤ limit) same h
read_chunks-le limit (none ∷ rest) body read small h e = absurd (ground arith)
read_chunks-le limit (some chunk ∷ rest) body read small h e =
    elim (Bool-cases (ltb limit (min (length body + length chunk) 18446744073709551615))) [
      | inl large ↦ absurd (ground (arith, rw (large, read_chunks) at e))
      | inr fits ↦
          let size : length (body ++ chunk) ≤ limit = ground (arith, length-append body chunk) in
          read_chunks-le limit rest (body ++ chunk) read small size (rw (fits, read_chunks) at e)
    ]

-- No body of more than the limit is parsed, whatever the service says its length is.
pub read_bounded-le :
    (response : RawResponse) (limit : ℕ) (read : Bytes)
    → limit < 18446744073709551615
    → read_bounded response limit ≡ some read
    → length read ≤ limit
unfolding read_bounded
read_bounded-le response limit read small h =
    elim (Bool-cases (is_some_and response.content_length (λ l. ltb limit l))) [
      | inl declared ↦ absurd (ground (arith, rw (declared, read_bounded) at h))
      | inr admitted ↦
          read_chunks-le limit response.chunks [] read small (omega arith)
            (rw (admitted, read_bounded) at h)
    ]
