-- ===== src/Challenge/Registry/Once.antt =====
-- Issuing a challenge and sweeping, in src/challenge/registry.rs.
use executor_node.Prelude.{
  ℕ, ◌-◌, ◌≤◌, ◌≡◌, refl, inl, inr, true, false, not, Option, none, some, Bytes, arith, List,
  Option-cases, Bytes_eq, if◌then◌else◌, [], ◌∷◌, leb, and_then,
}
use executor_node.Clock.{as_secs}
use executor_node.Map.{Map, get, get-insert_self, get-remove, get-retain}
use executor_node.Challenge.Lissajous.{LissajousParams}
use executor_node.Challenge.Registry.{
  NonceEntry, WalletChallenges, ChallengeNonceRegistry, is_stale, prune_stale_wallet, fresh_nonce,
  issue, peek_challenge, peek_exact_challenge, clone_if_fresh, evict_stale, sweep, is_empty,
  or_default, add_nonce,
}
use executor_node.Challenge.Registry.Laws.{empty_get}

-- The candidate that the loop accepts names no entry, and the loop fails only if every candidate names one.
fresh_nonce_new :
    (cs : List Bytes) (m : Map Bytes NonceEntry) (nonce : Bytes)
    → fresh_nonce cs m ≡ some nonce
    → get nonce m ≡ none
unfolding fresh_nonce
fresh_nonce_new [] m nonce h = ground arith
fresh_nonce_new (c ∷ cs) m nonce h = ground (arith, fresh_nonce_new cs m nonce)

-- What a look-up shows of a challenge that was issued at a time.
abbrev pub shown :
    ChallengeNonceRegistry → ℕ → ℕ → Bytes → LissajousParams → Option (Bytes × LissajousParams)
shown r issued later phrase curve = elim (leb (as_secs (later - issued)) r.ttl_secs) [
  | true ↦ some (phrase, curve)
  | false ↦ none
]

pruned_unseen :
    (r : ChallengeNonceRegistry) (now : ℕ) (wallet nonce : Bytes)
    → get nonce (prune_stale_wallet r now (or_default (get wallet r.entries))).by_nonce ≡ none
    → peek_exact_challenge r now wallet nonce ≡ none
unfolding prune_stale_wallet peek_exact_challenge
pruned_unseen r now wallet nonce h = elim (Option-cases (get wallet r.entries)) [
  | inl n ↦ ground arith
  | inr (w, e) ↦ ground (arith, get-retain (λ x. not (is_stale r now x)) nonce w.by_nonce)
]

-- A challenge that is issued has a nonce that showed nothing before, and its nonce and the legacy pointer show exactly the issued phrase and curve until the lifetime has passed.
pub issue_shows :
    (r r' : ChallengeNonceRegistry) (now later : ℕ) (wallet nonce phrase : Bytes)
    (candidates : List Bytes) (curve : LissajousParams)
    → issue r now wallet candidates phrase curve ≡ some (r', nonce)
    → (peek_exact_challenge r now wallet nonce ≡ none)
      × (peek_exact_challenge r' later wallet nonce ≡ shown r now later phrase curve)
      × (peek_challenge r' later wallet ≡ shown r now later phrase curve)
unfolding issue peek_exact_challenge peek_challenge
issue_shows r r' now later wallet nonce phrase candidates curve h =
    let w = prune_stale_wallet r now (or_default (get wallet r.entries)) in
    let entry : NonceEntry = record { phrase = phrase; curve = curve; issued_at = now } in
    elim (Option-cases (fresh_nonce candidates w.by_nonce)) [
      | inl n ↦ ground (arith, n)
      | inr (c, e) ↦
          let stored = get-insert_self wallet (add_nonce entry w c) r.entries in
          let named = get-insert_self c entry w.by_nonce in
          (
            pruned_unseen r now wallet nonce
                (ground (arith, fresh_nonce_new candidates w.by_nonce c e)),
            ground (arith, e, stored, named),
            ground (arith, e, stored, named),
          )
    ]

-- The sweep's result for one wallet.
swept : ChallengeNonceRegistry → ℕ → Option WalletChallenges → Option WalletChallenges
swept r now none = none
swept r now (some w) =
    let left = prune_stale_wallet r now w in
    if not (is_empty left.by_nonce) then some left else none

get-sweep :
    (r : ChallengeNonceRegistry) (now : ℕ) (wallet : Bytes) (m : Map Bytes WalletChallenges)
    → get wallet (sweep r now m) ≡ swept r now (get wallet m)
unfolding sweep swept get
get-sweep r now wallet [] = refl
get-sweep r now wallet ((j, w) ∷ m) =
    ground (arith, get-sweep r now wallet m, get-remove wallet j (sweep r now m))

-- The look-ups of one wallet, by nonce and by its pointer.
abbrev look :
    ChallengeNonceRegistry → ℕ → Map Bytes NonceEntry → Bytes → Option (Bytes × LissajousParams)
look r later m nonce = and_then (get nonce m) (λ e. clone_if_fresh r later e)

abbrev look_pointer :
    ChallengeNonceRegistry → ℕ → WalletChallenges → Option (Bytes × LissajousParams)
look_pointer r later w = and_then w.current_legacy_nonce (look r later w.by_nonce)

look_pruned :
    (r : ChallengeNonceRegistry) (now later : ℕ) (w : WalletChallenges) (nonce : Bytes)
    → now ≤ later
    → look r later (prune_stale_wallet r now w).by_nonce nonce ≡ look r later w.by_nonce nonce
unfolding prune_stale_wallet clone_if_fresh
look_pruned r now later w nonce h =
    ground (arith, get-retain (λ e. not (is_stale r now e)) nonce w.by_nonce)

look_pointer_pruned :
    (r : ChallengeNonceRegistry) (now later : ℕ) (w : WalletChallenges)
    → now ≤ later
    → look_pointer r later (prune_stale_wallet r now w) ≡ look_pointer r later w
unfolding prune_stale_wallet
look_pointer_pruned r now later w h = elim (Option-cases w.current_legacy_nonce) [
  | inl n ↦ ground (arith, n)
  | inr (c, e) ↦ ground (arith, look_pruned r now later w c h)
]

empty_pointer :
    (r : ChallengeNonceRegistry) (later : ℕ) (w : WalletChallenges)
    → is_empty w.by_nonce ≡ true
    → look_pointer r later w ≡ none
empty_pointer r later w h = elim (Option-cases w.current_legacy_nonce) [
  | inl n ↦ ground arith
  | inr (c, e) ↦ ground (arith, empty_get c w.by_nonce)
]

-- A sweep changes no answer: a look-up of any challenge at the sweep's time or later, by nonce or by the legacy pointer, shows what it showed without the sweep.
pub peek-evict_stale :
    (r : ChallengeNonceRegistry) (now later : ℕ) (wallet nonce : Bytes)
    → now ≤ later
    → (peek_exact_challenge (evict_stale r now) later wallet nonce
        ≡ peek_exact_challenge r later wallet nonce)
      × (peek_challenge (evict_stale r now) later wallet ≡ peek_challenge r later wallet)
unfolding evict_stale peek_exact_challenge peek_challenge swept
peek-evict_stale r now later wallet nonce h = elim (Option-cases (get wallet r.entries)) [
  | inl n ↦ ground (arith, get-sweep r now wallet r.entries)
  | inr (w, e) ↦
      let pruned = prune_stale_wallet r now w in
      let gone = empty_get nonce pruned.by_nonce in
      let swept_to = get-sweep r now wallet r.entries in
      (
        ground (arith, swept_to, gone, look_pruned r now later w nonce h),
        ground (arith, swept_to, empty_pointer r later pruned, look_pointer_pruned r now later w h),
      )
]
