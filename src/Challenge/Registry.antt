-- ===== src/Challenge/Registry.antt =====
-- src/challenge/registry.rs: the challenge nonces of each wallet. The random nonce candidates, the
-- phrase and the curve are arguments, for they come from outside the registry.
pub mod Laws
pub mod Once
pub mod Legacy
use executor_node.Prelude.{
  ℕ, ◌-◌, Bool, true, false, not, ◌&&◌, Option, none, some, List, [], ◌∷◌, Bytes, Bytes_eq, ltb,
  leb, ◌==◌, if◌then◌else◌, Result, ok, err, is_some_and, and_then,
}
use executor_node.Clock.{as_secs}
use executor_node.Challenge.Lissajous.{LissajousParams}
use executor_node.Map.{Map, get, contains_key, insert, remove, retain}

pub record NonceEntry : Type 0 where
  pub phrase : Bytes
  pub curve : LissajousParams
  pub issued_at : ℕ

pub record WalletChallenges : Type 0 where
  pub current_legacy_nonce : Option Bytes
  pub by_nonce : Map Bytes NonceEntry

pub record ChallengeNonceRegistry : Type 0 where
  pub entries : Map Bytes WalletChallenges
  pub ttl_secs : ℕ

pub data ChallengeError : Type 0 where
  not_found nonce_mismatch expired : ChallengeError

pub new : ℕ → ChallengeNonceRegistry
new ttl_secs = record { entries = []; ttl_secs = ttl_secs }

unfoldable pub is_stale : ChallengeNonceRegistry → ℕ → NonceEntry → Bool
is_stale r now e = ltb r.ttl_secs (as_secs (now - e.issued_at))

-- The pointer, unless the entry that it names is gone.
abbrev live_pointer : Map Bytes NonceEntry → Option Bytes → Option Bytes
live_pointer by_nonce none = none
live_pointer by_nonce (some nonce) = if not (contains_key nonce by_nonce) then none else some nonce

unfoldable pub prune_stale_wallet : ChallengeNonceRegistry → ℕ → WalletChallenges → WalletChallenges
unfolding is_stale
prune_stale_wallet r now w =
    let kept = retain (λ e. not (is_stale r now e)) w.by_nonce in
    record { current_legacy_nonce = live_pointer kept w.current_legacy_nonce; by_nonce = kept }

-- The loop over random candidates: the first that names no entry. `none` says that the candidates
-- ran out.
unfoldable pub fresh_nonce : List Bytes → Map Bytes NonceEntry → Option Bytes
fresh_nonce [] by_nonce = none
fresh_nonce (candidate ∷ more) by_nonce =
    let rest = fresh_nonce more by_nonce in
    if not (contains_key candidate by_nonce) then some candidate else rest

abbrev pub or_default : Option WalletChallenges → WalletChallenges
or_default none = record { current_legacy_nonce = none; by_nonce = [] }
or_default (some w) = w

abbrev add_nonce : NonceEntry → WalletChallenges → Bytes → WalletChallenges
add_nonce e w nonce = record {
  current_legacy_nonce = some nonce;
  by_nonce = insert nonce e w.by_nonce;
}

unfoldable pub issue :
    ChallengeNonceRegistry
    → ℕ
    → Bytes
    → List Bytes
    → Bytes
    → LissajousParams
    → Option (ChallengeNonceRegistry × Bytes)
unfolding prune_stale_wallet fresh_nonce
issue r now wallet candidates phrase curve =
    let w = prune_stale_wallet r now (or_default (get wallet r.entries)) in
    let entry : NonceEntry = record { phrase = phrase; curve = curve; issued_at = now } in
    elim (fresh_nonce candidates w.by_nonce) [
      | none ↦ none
      | some nonce ↦
          some (record r { entries = insert wallet (add_nonce entry w nonce) r.entries }, nonce)
    ]

unfoldable pub clone_if_fresh :
    ChallengeNonceRegistry → ℕ → NonceEntry → Option (Bytes × LissajousParams)
unfolding is_stale
clone_if_fresh r now e = if is_stale r now e then none else some (e.phrase, e.curve)

unfoldable pub peek_challenge :
    ChallengeNonceRegistry → ℕ → Bytes → Option (Bytes × LissajousParams)
unfolding clone_if_fresh
peek_challenge r now wallet = and_then (get wallet r.entries) λ w.
    and_then w.current_legacy_nonce
      λ nonce. and_then (get nonce w.by_nonce) λ e. clone_if_fresh r now e

unfoldable pub peek_exact_challenge :
    ChallengeNonceRegistry → ℕ → Bytes → Bytes → Option (Bytes × LissajousParams)
unfolding clone_if_fresh
peek_exact_challenge r now wallet nonce =
    and_then (get wallet r.entries) λ w. and_then (get nonce w.by_nonce) λ e. clone_if_fresh r now e

-- The test on the legacy pointer, with the error that it returns early with.
abbrev check_pointer : Bool → Option Bytes → Bytes → Result ChallengeError (Unit {0})
check_pointer false pointer nonce = ok tt
check_pointer true none nonce = err not_found
check_pointer true (some current) nonce = if current == nonce then ok tt else err nonce_mismatch

abbrev is_empty : {V : Type 0} → List V → Bool
is_empty [] = true
is_empty (x ∷ xs) = false

-- What is left of the wallet once the nonce is removed.
abbrev without : Bytes → WalletChallenges → WalletChallenges
without nonce w = record {
  current_legacy_nonce =
      if is_some_and w.current_legacy_nonce (λ c. c == nonce) then none else w.current_legacy_nonce;
  by_nonce = remove nonce w.by_nonce;
}

unfoldable pub take_nonce :
    ChallengeNonceRegistry
    → ℕ
    → Bytes
    → Bytes
    → WalletChallenges
    → Option NonceEntry
    → ChallengeNonceRegistry × Result ChallengeError (Unit {0})
unfolding is_stale
take_nonce r now wallet nonce w none = (r, err nonce_mismatch)
take_nonce r now wallet nonce w (some e) =
    let left = without nonce w in
    (
      if is_empty left.by_nonce
          then record r { entries = remove wallet r.entries }
          else record r { entries = insert wallet left r.entries },
      if is_stale r now e then err expired else ok tt,
    )

unfoldable pub consume_wallet :
    ChallengeNonceRegistry
    → ℕ
    → Bytes
    → Bytes
    → Bool
    → Option WalletChallenges
    → ChallengeNonceRegistry × Result ChallengeError (Unit {0})
unfolding take_nonce
consume_wallet r now wallet nonce legacy none = (r, err not_found)
consume_wallet r now wallet nonce legacy (some w) =
    elim (check_pointer legacy w.current_legacy_nonce nonce) [
      | err e ↦ (r, err e)
      | ok _ ↦ take_nonce r now wallet nonce w (get nonce w.by_nonce)
    ]

unfoldable pub consume :
    ChallengeNonceRegistry
    → ℕ
    → Bytes
    → Bytes
    → Bool
    → ChallengeNonceRegistry × Result ChallengeError (Unit {0})
unfolding consume_wallet
consume r now wallet nonce legacy = consume_wallet r now wallet nonce legacy (get wallet r.entries)

unfoldable pub validate_and_consume :
    ChallengeNonceRegistry
    → ℕ
    → Bytes
    → Bytes
    → ChallengeNonceRegistry × Result ChallengeError (Unit {0})
validate_and_consume r now wallet nonce = consume r now wallet nonce true

unfoldable pub validate_and_consume_exact :
    ChallengeNonceRegistry
    → ℕ
    → Bytes
    → Bytes
    → ChallengeNonceRegistry × Result ChallengeError (Unit {0})
validate_and_consume_exact r now wallet nonce = consume r now wallet nonce false

-- A sweep over the wallets: a wallet with no entry left is dropped.
sweep : ChallengeNonceRegistry → ℕ → Map Bytes WalletChallenges → Map Bytes WalletChallenges
sweep r now [] = []
sweep r now ((wallet, w) ∷ rest) =
    let left = prune_stale_wallet r now w in
    let swept = sweep r now rest in
    if not (is_empty left.by_nonce) then (wallet, left) ∷ swept else remove wallet swept

unfoldable pub evict_stale : ChallengeNonceRegistry → ℕ → ChallengeNonceRegistry
unfolding sweep prune_stale_wallet
evict_stale r now = record r { entries = sweep r now r.entries }
