-- ===== src/Challenge/Tests.antt =====
-- Small challenges for src/challenge/registry.rs.
use executor_node.Prelude.{
  ◌≡◌, ◌≢◌, refl, true, false, none, some, [], ◌∷◌, Bytes, bytes, Bytes_eq, arith, is_ok, is_some,
  if◌then◌else◌, ◌==◌,
}
use executor_node.Challenge.Lissajous.{LissajousParams}
use executor_node.Challenge.Registry.{
  ChallengeNonceRegistry, NonceEntry, WalletChallenges, issue, peek_challenge, peek_exact_challenge,
  validate_and_consume, validate_and_consume_exact, evict_stale, prune_stale_wallet, fresh_nonce,
}
use executor_node.Challenge.Registry.Laws.{
  entry_of, pointer_of, validate_and_consume_exact_once, validate_and_consume_legacy,
}
use executor_node.Challenge.Registry.Once.{peek-evict_stale}
use executor_node.Challenge.Issue.{
  ChallengeResponse, Choice, join, generate_phrase, challenge_handler,
}
use executor_node.Challenge.Issue.Laws.{challenge_handler_accepted}
use executor_node.Map.{get, insert, remove, retain}

abbrev wallet : Bytes
wallet = bytes "W"

abbrev nonce_one : Bytes
nonce_one = bytes "n1"

abbrev curve : LissajousParams
curve = record { a = 1; b = 2; delta = 0; points = 200; anchor_x = 0; anchor_y = 0 }

abbrev entry : NonceEntry
entry = record { phrase = bytes "blue sky"; curve = curve; issued_at = 5 }

abbrev challenges : WalletChallenges
challenges = record { current_legacy_nonce = some nonce_one; by_nonce = (nonce_one, entry) ∷ [] }

abbrev one_challenge : ChallengeNonceRegistry
one_challenge = record { entries = (wallet, challenges) ∷ []; ttl_secs = 60 }

abbrev no_challenge : ChallengeNonceRegistry
no_challenge = record { entries = []; ttl_secs = 60 }

validate_and_consume_exact_once_example :
    (is_ok (validate_and_consume_exact one_challenge 9 wallet nonce_one).1
      ≡ is_some (peek_exact_challenge one_challenge 9 wallet nonce_one))
    × ((wallet' nonce' : Bytes)
        → entry_of (validate_and_consume_exact one_challenge 9 wallet nonce_one).0 wallet' nonce'
          ≡ (if wallet' == wallet
              then (if nonce' == nonce_one then none else entry_of one_challenge wallet' nonce')
              else entry_of one_challenge wallet' nonce'))
validate_and_consume_exact_once_example =
    validate_and_consume_exact_once one_challenge 9 wallet nonce_one

validate_and_consume_legacy_example :
    ((pointer_of one_challenge wallet ≡ some nonce_one)
      → validate_and_consume one_challenge 9 wallet nonce_one
        ≡ validate_and_consume_exact one_challenge 9 wallet nonce_one)
    × ((pointer_of one_challenge wallet ≢ some nonce_one)
        → ((validate_and_consume one_challenge 9 wallet nonce_one).0 ≡ one_challenge)
          × (is_ok (validate_and_consume one_challenge 9 wallet nonce_one).1 ≡ false))
validate_and_consume_legacy_example = validate_and_consume_legacy one_challenge 9 wallet nonce_one

abbrev curves : ChallengeResponse
curves = record { nonce = nonce_one; expires_in = 60; phrase = bytes "blue sky"; curve = curve }

-- A dictionary that always gives the same two words.
abbrev two_words : Choice
two_words n = bytes "blue" ∷ bytes "sky" ∷ []

challenge_handler_accepted_example :
    (named : Bytes) × (some wallet ≡ some named)
    × (peek_exact_challenge no_challenge 5 named nonce_one ≡ none)
    × (peek_exact_challenge one_challenge 60000000000 named nonce_one
        ≡ some (bytes "blue sky", curve))
    × (peek_challenge one_challenge 60000000000 named ≡ some (bytes "blue sky", curve))
    × (is_ok (validate_and_consume_exact one_challenge 60000000000 named nonce_one).1 ≡ true)
unfolding issue prune_stale_wallet fresh_nonce get insert remove retain challenge_handler
    generate_phrase join
challenge_handler_accepted_example =
    challenge_handler_accepted some two_words no_challenge one_challenge 5 60000000000
      (nonce_one ∷ []) curve wallet curves refl (omega arith)

peek-evict_stale_example :
    (peek_exact_challenge (evict_stale one_challenge 70) 80 wallet nonce_one
      ≡ peek_exact_challenge one_challenge 80 wallet nonce_one)
    × (peek_challenge (evict_stale one_challenge 70) 80 wallet
        ≡ peek_challenge one_challenge 80 wallet)
peek-evict_stale_example = peek-evict_stale one_challenge 70 80 wallet nonce_one (omega arith)
