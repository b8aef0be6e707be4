-- ===== src/Attestation/Handler.antt =====
-- src/attestation/handler.rs: `attest_handler`, on the shared state.
pub mod Laws
use executor_node.Prelude.{
  ℕ, ◌+◌, Bool, true, false, not, Option, none, some, Bytes, length, nat_eq, if◌then◌else◌, Result,
  ok, err,
}
use executor_node.Error.{AppError, Message, invalid_request, forbidden, text, text_bytes}
use executor_node.Challenge.Registry.{
  ChallengeError, not_found, nonce_mismatch, expired, validate_and_consume,
}
use executor_node.Validation.Authorization.{Wallets}
use executor_node.Attestation.Issue.{SasAttestor, issue_attestation}
use executor_node.Attestation.Signature.{Stop, refused, verify_wallet_signature}
use executor_node.State.{AppState}

pub record AttestRequest : Type 0 where
  pub wallet_address : Bytes
  pub nonce : Option Bytes
  pub signature : Option Bytes
  pub message : Option Bytes

-- The error is the one that the text renders.
pub record AttestResponse : Type 0 where
  pub success : Bool
  pub attestation_tx : Option Bytes
  pub error : Option AppError

-- "Challenge validation failed: {e}"
abbrev challenge_failed : ChallengeError → Message
challenge_failed not_found = text "Challenge validation failed: No challenge issued for this wallet"
challenge_failed nonce_mismatch =
    text "Challenge validation failed: Nonce does not match issued challenge"
challenge_failed expired = text "Challenge validation failed: Challenge has expired"

abbrev pub Attested : Type 0
Attested = AppState × Result Stop AttestResponse

module _ (wallets : Wallets) where
  -- A failure to issue is an answer, not an error.
  unfoldable pub respond : AppState → Result AppError Bytes → Attested
  respond s (ok sig) = (
    record s { attestations = s.attestations + 1 },
    ok (record { success = true; attestation_tx = some sig; error = none }),
  )
  respond s (err e) = (s, ok (record { success = false; attestation_tx = none; error = some e }))

  unfoldable pub consume_challenge :
      SasAttestor → Option ℕ → AppState → ℕ → Bytes → Bytes → Attested
  unfolding validate_and_consume issue_attestation respond
  consume_challenge a clock s now wallet nonce =
      let (registry, answer) = validate_and_consume s.challenge_registry now wallet nonce in
      let consumed : AppState = record s { challenge_registry = registry } in
      elim answer [
        | err e ↦ (consumed, err (refused (forbidden (challenge_failed e))))
        | ok _ ↦ respond consumed (issue_attestation a clock wallet)
      ]

  -- Once the proof is there and the wallet is read.
  unfoldable pub attest_wallet :
      SasAttestor → Option ℕ → AppState → ℕ → Bytes → Bytes → Bytes → Bytes → Attested
  unfolding verify_wallet_signature consume_challenge
  attest_wallet a clock s now wallet nonce signature message =
      if not (nat_eq (length nonce) 32)
      then (s, err (refused (invalid_request (text "Nonce must be 32 bytes"))))
      else elim (verify_wallet_signature wallets clock wallet signature message) [
        | err e ↦ (s, err e)
        | ok _ ↦ consume_challenge a clock s now wallet nonce
      ]

  unfoldable pub attest_owned :
      SasAttestor
      → Option ℕ
      → AppState
      → ℕ
      → Bytes
      → Option Bytes
      → Option Bytes
      → Option Bytes
      → Attested
  unfolding attest_wallet
  attest_owned a clock s now address (some nonce) (some signature) (some message) =
      elim (wallets.from_str address) [
        | none ↦
            (s, err (refused (invalid_request (text_bytes "Invalid wallet address: {}" address))))
        | some wallet ↦ attest_wallet a clock s now wallet nonce signature message
      ]
  attest_owned a clock s now address _ _ _ =
      (s, err (refused (invalid_request (text "wallet_ownership_required"))))

  unfoldable pub attest_handler :
      Option SasAttestor → Option ℕ → AppState → ℕ → AttestRequest → Attested
  unfolding attest_owned
  attest_handler none clock s now req =
      (s, err (refused (invalid_request (text "SAS attestation is not configured"))))
  attest_handler (some a) clock s now req =
      attest_owned a clock s now req.wallet_address req.nonce req.signature req.message
