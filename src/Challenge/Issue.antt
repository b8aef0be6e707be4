-- ===== src/Challenge/Issue.antt =====
-- src/challenge/handler.rs and src/challenge/phrase_gen.rs: the endpoint that issues a challenge.
-- The parser of a wallet and the choice of the words are parameters; the curve and the candidates of
-- the nonce are arguments.
pub mod Laws
use executor_node.Prelude.{
  ℕ, zero, suc, Option, none, some, List, [], ◌∷◌, ◌++◌, Bytes, Result, ok, err,
}
use executor_node.Error.{AppError, invalid_request, text_bytes}
use executor_node.Challenge.Lissajous.{LissajousParams}
use executor_node.Challenge.Registry.{ChallengeNonceRegistry, issue}

pub record ChallengeResponse : Type 0 where
  pub nonce : Bytes
  pub expires_in : ℕ
  pub phrase : Bytes
  pub curve : LissajousParams

-- `join(" ")`
unfoldable pub join : List Bytes → Bytes
join [] = []
join (word ∷ []) = word
join (word ∷ next ∷ words) = word ++ (32 ∷ join (next ∷ words))

-- `choose_multiple` of the words.
abbrev pub Choice : Type 0
Choice = ℕ → List Bytes

unfoldable pub generate_phrase : Choice → ℕ → Bytes
unfolding join
generate_phrase choose_multiple zero = []
generate_phrase choose_multiple (suc n) = join (choose_multiple (suc n))

-- The number of words of a phrase.
abbrev pub phrase_word_count : ℕ
phrase_word_count = 5

module _ (from_str : Bytes → Option Bytes) (choose_multiple : Choice) where
  -- `none`: the candidates of the nonce ran out.
  unfoldable pub challenge_handler :
      ChallengeNonceRegistry
      → ℕ
      → List Bytes
      → LissajousParams
      → Bytes
      → Option (ChallengeNonceRegistry × Result AppError ChallengeResponse)
  unfolding issue generate_phrase
  challenge_handler r now candidates curve wallet_text = elim (from_str wallet_text) [
    | none ↦ some (r, err (invalid_request (text_bytes "Invalid wallet address: {}" wallet_text)))
    | some wallet ↦
        let phrase = generate_phrase choose_multiple phrase_word_count in
        elim (issue r now wallet candidates phrase curve) [
          | none ↦ none
          | some (issued, nonce) ↦ some (
            issued,
            ok (record {
              nonce = nonce;
              expires_in = issued.ttl_secs;
              phrase = phrase;
              curve = curve;
            }),
          )
        ]
  ]
