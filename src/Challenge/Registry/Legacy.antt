-- ===== src/Challenge/Registry/Legacy.antt =====
-- The legacy call of src/challenge/registry.rs uses a nonce up.
use executor_node.Prelude.{
  ℕ, ◌≡◌, ◌≢◌, ap, ◌∙◌, inl, inr, ◌⊎◌, false, none, some, Bytes, Bytes_eq, bytes_eq_iff, ◌==◌,
  arith, ok, is_ok, Bool-cases, Option-cases,
}
use executor_node.Challenge.Registry.{ChallengeNonceRegistry, validate_and_consume}
use executor_node.Challenge.Registry.Laws.{
  entry_of, pointer_of, consume_absent, validate_and_consume_exact_once,
  validate_and_consume_legacy,
}

pointer-cases :
    (r : ChallengeNonceRegistry) (wallet nonce : Bytes)
    → (pointer_of r wallet ≡ some nonce) ⊎ (pointer_of r wallet ≢ some nonce)
pointer-cases r wallet nonce = elim (Option-cases (pointer_of r wallet)) [
  | inl n ↦ inr (λ h. ground arith)
  | inr (p, e) ↦ elim (Bool-cases (p == nonce)) [
    | inl same ↦ inl (e ∙ ap some ((bytes_eq_iff p nonce).0 same))
    | inr other ↦ inr (λ h. ground (arith, bytes_eq_iff p nonce))
  ]
]

-- A nonce that names nothing is refused.
legacy_absent :
    (r : ChallengeNonceRegistry) (now : ℕ) (wallet nonce : Bytes)
    → entry_of r wallet nonce ≡ none
    → is_ok (validate_and_consume r now wallet nonce).1 ≡ false
legacy_absent r now wallet nonce h = elim (pointer-cases r wallet nonce) [
  | inl current ↦
      ap (λ x. is_ok x.1) ((validate_and_consume_legacy r now wallet nonce).0 current)
      ∙ (consume_absent r now wallet nonce h).1
  | inr other ↦ ((validate_and_consume_legacy r now wallet nonce).1 other).1
]

-- Once it is accepted, a nonce names nothing.
legacy_taken :
    (r : ChallengeNonceRegistry) (now : ℕ) (wallet nonce : Bytes)
    → (validate_and_consume r now wallet nonce).1 ≡ ok tt
    → entry_of (validate_and_consume r now wallet nonce).0 wallet nonce ≡ none
legacy_taken r now wallet nonce h = elim (pointer-cases r wallet nonce) [
  | inr other ↦ absurd (
      ground
        (arith, ap (λ x. is_ok x) h, ((validate_and_consume_legacy r now wallet nonce).1 other).1))
  | inl current ↦
      ap (λ x. entry_of x.0 wallet nonce)
        ((validate_and_consume_legacy r now wallet nonce).0 current)
      ∙ (validate_and_consume_exact_once r now wallet nonce).1 wallet nonce
      ∙ ground (arith, bytes_eq_iff wallet wallet, bytes_eq_iff nonce nonce)
]

pub validate_and_consume_once :
    (r : ChallengeNonceRegistry) (now later : ℕ) (wallet nonce : Bytes)
    → (validate_and_consume r now wallet nonce).1 ≡ ok tt
    → (validate_and_consume (validate_and_consume r now wallet nonce).0 later wallet nonce).1
      ≢ ok tt
validate_and_consume_once r now later wallet nonce h k =
    let r' = (validate_and_consume r now wallet nonce).0 in
    let refused = legacy_absent r' later wallet nonce (legacy_taken r now wallet nonce h) in
    ground (arith, ap (λ x. is_ok x) k)
