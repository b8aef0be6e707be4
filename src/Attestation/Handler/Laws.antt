-- ===== src/Attestation/Handler/Laws.antt =====
-- What a call of `attest_handler` of src/attestation/handler.rs needs, changes and uses up.
use executor_node.Prelude.{
  ℕ, ◌≡◌, ◌≢◌, refl, sym, ap, ◌∙◌, subst, inl, inr, Option, none, some, Bytes, Bytes_eq, arith,
  length, nat_eq, Result, ok, err, Bool-cases, Option-cases, Result-cases,
}
use executor_node.Error.{AppError}
use executor_node.Challenge.Registry.{validate_and_consume}
use executor_node.Challenge.Registry.Legacy.{validate_and_consume_once}
use executor_node.Validation.Authorization.{Wallets}
use executor_node.Attestation.Issue.{SasAttestor, issue_attestation}
use executor_node.Attestation.Signature.{verify_wallet_signature}
use executor_node.Attestation.Signature.Laws.{IsOwned, verify_wallet_signature-IsOwned}
use executor_node.Attestation.Handler.{
  AttestRequest, AttestResponse, Attested, respond, consume_challenge, attest_wallet, attest_owned,
  attest_handler,
}
use executor_node.State.{AppState}

-- A request that got as far as the attestor: what it carried, and what that showed.
pub record IsAdmitted (wallets : Wallets) (a : SasAttestor) (clock : Option ℕ) (s : AppState)
    (now : ℕ) (req : AttestRequest) (p : Attested) : Type 0 where
  pub wallet : Bytes
  pub nonce : Bytes
  pub signature : Bytes
  pub message : Bytes
  pub has_nonce : req.nonce ≡ some nonce
  pub has_signature : req.signature ≡ some signature
  pub has_message : req.message ≡ some message
  pub has_wallet : wallets.from_str req.wallet_address ≡ some wallet
  pub owned : IsOwned wallets clock wallet signature message
  pub consumed : (validate_and_consume s.challenge_registry now wallet nonce).1 ≡ ok tt
  pub step :
      p
      ≡ respond wallets
          (record s {
            challenge_registry = (validate_and_consume s.challenge_registry now wallet nonce).0;
          })
          (issue_attestation a clock wallet)

some_inj : {x y : Bytes} → some x ≡ some y → x ≡ y
some_inj h = ground arith

module _ (wallets : Wallets) (a : SasAttestor) (clock : Option ℕ) where
  consume_challenge-ok :
      (s : AppState) (now : ℕ) (wallet nonce : Bytes) (r : AttestResponse)
      → (consume_challenge wallets a clock s now wallet nonce).1 ≡ ok r
      → ((validate_and_consume s.challenge_registry now wallet nonce).1 ≡ ok tt)
        × (consume_challenge wallets a clock s now wallet nonce
            ≡ respond wallets
                (record s {
                  challenge_registry =
                      (validate_and_consume s.challenge_registry now wallet nonce).0;
                })
                (issue_attestation a clock wallet))
  unfolding consume_challenge
  consume_challenge-ok s now wallet nonce r h =
      elim (Result-cases (validate_and_consume s.challenge_registry now wallet nonce).1) [
        | inr (e, refused) ↦ absurd (ground (arith, rw (refused, consume_challenge) at h))
        | inl (u, taken) ↦ (taken, rw (taken, consume_challenge) refl)
      ]

  attest_wallet-ok :
      (s : AppState) (now : ℕ) (wallet nonce signature message : Bytes) (req : AttestRequest)
      (r : AttestResponse)
      → req.nonce ≡ some nonce
      → req.signature ≡ some signature
      → req.message ≡ some message
      → wallets.from_str req.wallet_address ≡ some wallet
      → (attest_wallet wallets a clock s now wallet nonce signature message).1 ≡ ok r
      → IsAdmitted wallets a clock s now req
          (attest_wallet wallets a clock s now wallet nonce signature message)
  unfolding attest_wallet
  attest_wallet-ok s now wallet nonce signature message req r has signed_by says known h =
      elim (Bool-cases (nat_eq (length nonce) 32)) [
        | inr short ↦ absurd (ground (arith, rw (short, attest_wallet) at h))
        | inl long ↦
            elim (Result-cases (verify_wallet_signature wallets clock wallet signature message)) [
              | inr (e, unsigned) ↦ absurd (ground (arith, rw (long, unsigned, attest_wallet) at h))
              | inl (u, signed) ↦
                  let whole : attest_wallet wallets a clock s now wallet nonce signature message
                      ≡ consume_challenge wallets a clock s now wallet nonce =
                    rw (long, signed, attest_wallet) refl in
                  let (taken, step) =
                    consume_challenge-ok s now wallet nonce r (ap (λ x. x.1) (sym whole) ∙ h) in
                  record {
                    wallet = wallet;
                    nonce = nonce;
                    signature = signature;
                    message = message;
                    has_nonce = has;
                    has_signature = signed_by;
                    has_message = says;
                    has_wallet = known;
                    owned =
                        verify_wallet_signature-IsOwned wallets clock wallet signature message
                          signed;
                    consumed = taken;
                    step = whole ∙ step;
                  }
            ]
      ]

  attest_owned-ok :
      (s : AppState) (now : ℕ) (nonce signature message : Option Bytes) (req : AttestRequest)
      (r : AttestResponse)
      → req.nonce ≡ nonce
      → req.signature ≡ signature
      → req.message ≡ message
      → (attest_owned wallets a clock s now req.wallet_address nonce signature message).1 ≡ ok r
      → IsAdmitted wallets a clock s now req
          (attest_owned wallets a clock s now req.wallet_address nonce signature message)
  unfolding attest_owned
  attest_owned-ok s now none b c req r has signed_by says h = absurd (ground arith)
  attest_owned-ok s now (some x) none c req r has signed_by says h = absurd (ground arith)
  attest_owned-ok s now (some x) (some y) none req r has signed_by says h = absurd (ground arith)
  attest_owned-ok s now (some nonce) (some signature) (some message) req r has signed_by says h =
      elim (Option-cases (wallets.from_str req.wallet_address)) [
        | inl garbled ↦ absurd (ground (arith, rw (garbled, attest_owned) at h))
        | inr (wallet, known) ↦
            let whole : attest_owned wallets a clock s now req.wallet_address (some nonce)
                  (some signature) (some message)
                ≡ attest_wallet wallets a clock s now wallet nonce signature message =
              rw (known, attest_owned) refl in
            subst (λ p. IsAdmitted wallets a clock s now req p) (sym whole)
              (attest_wallet-ok s now wallet nonce signature message req r has signed_by says known
                (ap (λ x. x.1) (sym whole) ∙ h))
      ]

  -- A call of /attest that is answered, whether the attestation succeeds or not, came with a nonce that the challenge registry accepts for the wallet that it names, and with a message of the last minute that this wallet signed, by the signature of the request. It uses the nonce up, and then the answer is what the attestor says. Otherwise the answer is an error.
  pub attest_handler-IsAdmitted :
      (s : AppState) (now : ℕ) (req : AttestRequest) (r : AttestResponse)
      → (attest_handler wallets (some a) clock s now req).1 ≡ ok r
      → IsAdmitted wallets a clock s now req (attest_handler wallets (some a) clock s now req)
  unfolding attest_handler
  attest_handler-IsAdmitted s now req r h =
      attest_owned-ok s now req.nonce req.signature req.message req r refl refl refl h

  respond_registry :
      (s : AppState) (o : Result AppError Bytes)
      → (respond wallets s o).0.challenge_registry ≡ s.challenge_registry
  unfolding respond
  respond_registry s (ok sig) = refl
  respond_registry s (err e) = refl

-- A proof of ownership works once: after a call that is answered, a call for the same wallet with the same nonce is never answered, whatever its signature and message are and whenever it comes.
pub attest_handler_once :
    (wallets : Wallets) (a a' : SasAttestor) (clock clock' : Option ℕ) (s : AppState)
    (now later : ℕ) (req req' : AttestRequest) (r r' : AttestResponse)
    → req'.wallet_address ≡ req.wallet_address
    → req'.nonce ≡ req.nonce
    → (attest_handler wallets (some a) clock s now req).1 ≡ ok r
    → (attest_handler wallets
        (some a')
        clock'
        (attest_handler wallets (some a) clock s now req).0
        later
        req').1
      ≢ ok r'
attest_handler_once wallets a a' clock clock' s now later req req' r r' same_wallet same_nonce h k =
    let first = attest_handler-IsAdmitted wallets a clock s now req r h in
    let s' = (attest_handler wallets (some a) clock s now req).0 in
    let second = attest_handler-IsAdmitted wallets a' clock' s' later req' r' k in
    let left : s'.challenge_registry
        ≡ (validate_and_consume s.challenge_registry now first.wallet first.nonce).0 =
      ap (λ p. p.0.challenge_registry) first.step ∙ respond_registry wallets a clock _ _ in
    let nonce : first.nonce ≡ second.nonce =
      some_inj (sym first.has_nonce ∙ sym same_nonce ∙ second.has_nonce) in
    let wallet : first.wallet ≡ second.wallet =
      some_inj (sym first.has_wallet ∙ sym (ap wallets.from_str same_wallet) ∙ second.has_wallet) in
    let again : (validate_and_consume
          (validate_and_consume s.challenge_registry now first.wallet first.nonce).0 later
          first.wallet first.nonce).1
        ≡ ok tt =
      rw (← left, wallet, nonce) second.consumed in
    validate_and_consume_once s.challenge_registry now later first.wallet first.nonce first.consumed
      again
