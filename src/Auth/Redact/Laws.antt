-- ===== src/Auth/Redact/Laws.antt =====
-- What a log line of src/auth/redact.rs reveals of a key or of a wallet.
use executor_node.Prelude.{
  ℕ, ◌≡◌, ◌∙◌, sym, inl, inr, some, [], ◌∷◌, ◌++◌, Bytes, Bytes_eq, bytes_eq, arith, Bool-cases,
}
use executor_node.Text.{starts_inside}
use executor_node.Auth.Redact.{redact_wallet_id, ellipsis}

-- Of a text of six bytes or more the six first are shown.
redact_wallet_id_shown :
    (a b c d e f : ℕ) (rest t : Bytes)
    → redact_wallet_id (a ∷ b ∷ c ∷ d ∷ e ∷ f ∷ rest) ≡ some t
    → t ≡ (a ∷ b ∷ c ∷ d ∷ e ∷ f ∷ []) ++ ellipsis
unfolding redact_wallet_id bytes_eq
redact_wallet_id_shown a b c d e f [] t h = ground arith
redact_wallet_id_shown a b c d e f (g ∷ rest) t h = elim (Bool-cases (starts_inside (g ∷ rest))) [
  | inl cut ↦ ground arith
  | inr whole ↦ ground arith
]

-- Two wallets with the same first six bytes have the same redacted form, so a log line tells nothing else of them.
redact_wallet_id_prefix :
    (a b c d e f : ℕ) (rest rest' t t' : Bytes)
    → redact_wallet_id (a ∷ b ∷ c ∷ d ∷ e ∷ f ∷ rest) ≡ some t
    → redact_wallet_id (a ∷ b ∷ c ∷ d ∷ e ∷ f ∷ rest') ≡ some t'
    → t ≡ t'
redact_wallet_id_prefix a b c d e f rest rest' t t' h h' =
    redact_wallet_id_shown a b c d e f rest t h
    ∙ sym (redact_wallet_id_shown a b c d e f rest' t' h')
