-- ===== src/Challenge/Registry/Laws.antt =====
-- Looking a challenge up, using it and sweeping, in src/challenge/registry.rs.
use executor_node.Prelude.{
  ℕ, ◌≡◌, refl, inl, inr, ◌≢◌, true, false, Option, none, some, Bytes, arith, Option-cases,
  Bytes_eq, bytes_eq_iff, if◌then◌else◌, ◌==◌, is_ok, is_some, [], ◌∷◌,
}
use executor_node.Map.{Map, get, get-insert, get-remove}
use executor_node.Challenge.Registry.{
  NonceEntry, WalletChallenges, ChallengeNonceRegistry, peek_exact_challenge, clone_if_fresh,
  consume, take_nonce, validate_and_consume, validate_and_consume_exact, without, is_empty,
}

-- The entry that a nonce of a wallet names.
abbrev pub entry_of : ChallengeNonceRegistry → Bytes → Bytes → Option NonceEntry
entry_of r wallet nonce = elim (get wallet r.entries) [
  | none ↦ none
  | some w ↦ get nonce w.by_nonce
]

pub empty_get : (k : Bytes) (m : Map Bytes NonceEntry) → is_empty m ≡ true → get k m ≡ none
unfolding get
empty_get k [] h = refl
empty_get k (x ∷ m) h = ground arith

-- What a wallet's entries are once a nonce is taken, by the wallet and nonce that are looked up.
entry_of-take_nonce :
    (r : ChallengeNonceRegistry) (now : ℕ) (wallet nonce wallet' nonce' : Bytes)
    (w : WalletChallenges) (e : NonceEntry)
    → get wallet r.entries ≡ some w
    → entry_of (take_nonce r now wallet nonce w (some e)).0 wallet' nonce' ≡ (
        if wallet' == wallet
        then (if nonce' == nonce then none else entry_of r wallet' nonce')
        else entry_of r wallet' nonce')
unfolding take_nonce
entry_of-take_nonce r now wallet nonce wallet' nonce' w e h = ground (
  arith,
  h,
  bytes_eq_iff wallet' wallet,
  empty_get nonce' (without nonce w).by_nonce,
  get-remove nonce' nonce w.by_nonce,
  get-remove wallet' wallet r.entries,
  get-insert wallet' wallet (without nonce w) r.entries,
)

-- Of a wallet with an entry for the nonce, what consuming by the exact nonce does.
consume_present :
    (r : ChallengeNonceRegistry) (now : ℕ) (wallet nonce : Bytes) (w : WalletChallenges)
    (e : NonceEntry)
    → get wallet r.entries ≡ some w
    → get nonce w.by_nonce ≡ some e
    → validate_and_consume_exact r now wallet nonce ≡ take_nonce r now wallet nonce w (some e)
unfolding validate_and_consume_exact consume
consume_present r now wallet nonce w e h k = ground (arith, h, k)

pub consume_absent :
    (r : ChallengeNonceRegistry) (now : ℕ) (wallet nonce : Bytes)
    → entry_of r wallet nonce ≡ none
    → ((validate_and_consume_exact r now wallet nonce).0 ≡ r)
      × (is_ok (validate_and_consume_exact r now wallet nonce).1 ≡ false)
      × (peek_exact_challenge r now wallet nonce ≡ none)
unfolding validate_and_consume_exact consume peek_exact_challenge
consume_absent r now wallet nonce h = ground arith

-- What a look-up of a registered nonce shows.
peek_present :
    (r : ChallengeNonceRegistry) (now : ℕ) (wallet nonce : Bytes) (e : NonceEntry)
    → entry_of r wallet nonce ≡ some e
    → peek_exact_challenge r now wallet nonce ≡ clone_if_fresh r now e
unfolding peek_exact_challenge
peek_present r now wallet nonce e h = ground arith

take_nonce-is_ok :
    (r : ChallengeNonceRegistry) (now : ℕ) (wallet nonce : Bytes) (w : WalletChallenges)
    (e : NonceEntry)
    → is_ok (take_nonce r now wallet nonce w (some e)).1 ≡ is_some (clone_if_fresh r now e)
unfolding take_nonce clone_if_fresh
take_nonce-is_ok r now wallet nonce w e = ground arith

entry_of_same :
    (r : ChallengeNonceRegistry) (wallet nonce wallet' nonce' : Bytes)
    → entry_of r wallet nonce ≡ none
    → entry_of r wallet' nonce' ≡ (
        if wallet' == wallet
        then (if nonce' == nonce then none else entry_of r wallet' nonce')
        else entry_of r wallet' nonce')
entry_of_same r wallet nonce wallet' nonce' h =
    ground (arith, h, bytes_eq_iff wallet' wallet, bytes_eq_iff nonce' nonce)

-- A nonce is accepted exactly when a look-up of it shows a challenge. After the call, accepted or not, the nonce names nothing, so it is never accepted twice, and every other nonce of every wallet names what it named.
pub validate_and_consume_exact_once :
    (r : ChallengeNonceRegistry) (now : ℕ) (wallet nonce : Bytes)
    → (is_ok (validate_and_consume_exact r now wallet nonce).1
        ≡ is_some (peek_exact_challenge r now wallet nonce))
      × ((wallet' nonce' : Bytes)
          → entry_of (validate_and_consume_exact r now wallet nonce).0 wallet' nonce' ≡ (
              if wallet' == wallet
              then (if nonce' == nonce then none else entry_of r wallet' nonce')
              else entry_of r wallet' nonce'))
validate_and_consume_exact_once r now wallet nonce = elim (Option-cases (get wallet r.entries)) [
  | inl n ↦
      let (same, refused, unseen) = consume_absent r now wallet nonce (ground arith) in
      (
        rw (refused, unseen),
        λ wallet' nonce'. rw same (entry_of_same r wallet nonce wallet' nonce' (ground arith)),
      )
  | inr (w, h) ↦ elim (Option-cases (get nonce w.by_nonce)) [
    | inl n ↦
        let (same, refused, unseen) = consume_absent r now wallet nonce (ground arith) in
        (
          rw (refused, unseen),
          λ wallet' nonce'. rw same (entry_of_same r wallet nonce wallet' nonce' (ground arith)),
        )
    | inr (e, k) ↦
        let taken = consume_present r now wallet nonce w e h k in
        (
          rw (taken, peek_present r now wallet nonce e (ground arith))
              (take_nonce-is_ok r now wallet nonce w e),
          λ wallet' nonce'. rw taken (entry_of-take_nonce r now wallet nonce wallet' nonce' w e h),
        )
  ]
]

abbrev pub pointer_of : ChallengeNonceRegistry → Bytes → Option Bytes
pointer_of r wallet = elim (get wallet r.entries) [ none ↦ none | some w ↦ w.current_legacy_nonce ]

-- The legacy call behaves as the exact one for the nonce that the wallet's pointer names, and for any other nonce fails and changes nothing.
pub validate_and_consume_legacy :
    (r : ChallengeNonceRegistry) (now : ℕ) (wallet nonce : Bytes)
    → ((pointer_of r wallet ≡ some nonce)
        → validate_and_consume r now wallet nonce ≡ validate_and_consume_exact r now wallet nonce)
      × ((pointer_of r wallet ≢ some nonce)
          → ((validate_and_consume r now wallet nonce).0 ≡ r)
            × (is_ok (validate_and_consume r now wallet nonce).1 ≡ false))
unfolding validate_and_consume validate_and_consume_exact consume
validate_and_consume_legacy r now wallet nonce = elim (Option-cases (get wallet r.entries)) [
  | inl n ↦ (λ p. ground arith, λ p. ground arith)
  | inr (w, h) ↦ elim (Option-cases w.current_legacy_nonce) [
    | inl n ↦ (λ p. ground arith, λ p. ground arith)
    | inr (c, k) ↦
        (λ p. ground (arith, bytes_eq_iff c nonce), λ p. ground (arith, bytes_eq_iff c nonce))
  ]
]
