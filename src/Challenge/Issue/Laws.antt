-- ===== src/Challenge/Issue/Laws.antt =====
-- What the answer of `challenge_handler` of src/challenge/handler.rs promises.
use executor_node.Prelude.{
  ℕ, ◌-◌, true, Bytes_eq, is_ok, is_some, ◌≤◌, ◌≡◌, ap, ◌∙◌, inl, inr, Option, none, some, List,
  Bytes, arith, ok, Option-cases,
}
use executor_node.Clock.{as_secs}
use executor_node.Challenge.Lissajous.{LissajousParams}
use executor_node.Challenge.Registry.{
  ChallengeNonceRegistry, issue, peek_exact_challenge, peek_challenge, fresh_nonce,
  prune_stale_wallet, or_default, validate_and_consume_exact,
}
use executor_node.Map.{get}
use executor_node.Challenge.Registry.Laws.{validate_and_consume_exact_once}
use executor_node.Challenge.Registry.Once.{shown, issue_shows}
use executor_node.Challenge.Issue.{Choice, ChallengeResponse, generate_phrase, challenge_handler}

module _ (from_str : Bytes → Option Bytes) (choose_multiple : Choice) where
  -- An issued challenge behind an answer.
  pub record IsIssued (r r' : ChallengeNonceRegistry) (now : ℕ) (candidates : List Bytes)
      (curve : LissajousParams) (wallet_text : Bytes) (answer : ChallengeResponse) : Type 0 where
    pub wallet : Bytes
    pub parsed : from_str wallet_text ≡ some wallet
    pub issued : issue r now wallet candidates answer.phrase answer.curve ≡ some (r', answer.nonce)
    pub phrase : answer.phrase ≡ generate_phrase choose_multiple 5
    pub curve_ : answer.curve ≡ curve
    pub lifetime : answer.expires_in ≡ r'.ttl_secs

  challenge_handler-IsIssued :
      (r r' : ChallengeNonceRegistry) (now : ℕ) (candidates : List Bytes) (curve : LissajousParams)
      (wallet_text : Bytes) (answer : ChallengeResponse)
      → challenge_handler from_str choose_multiple r now candidates curve wallet_text
        ≡ some (r', ok answer)
      → IsIssued r r' now candidates curve wallet_text answer
  unfolding challenge_handler
  challenge_handler-IsIssued r r' now candidates curve wallet_text answer h =
      elim (Option-cases (from_str wallet_text)) [
        | inl stranger ↦ absurd (ground (arith, rw (stranger, challenge_handler) at h))
        | inr (wallet, parsed) ↦
            let phrase = generate_phrase choose_multiple 5 in
            elim (Option-cases (issue r now wallet candidates phrase curve)) [
              | inl out ↦ absurd (ground (arith, rw (parsed, out, challenge_handler) at h))
              | inr ((issued, nonce), e) ↦
                  let same = rw (parsed, e, challenge_handler) at h in
                  let phrased : answer.phrase ≡ phrase = ground (arith, same) in
                  let curved : answer.curve ≡ curve = ground (arith, same) in
                  record {
                    wallet = wallet;
                    parsed = parsed;
                    issued = rw (phrased, curved) (e ∙ ap some (ground (arith, same)));
                    phrase = phrased;
                    curve_ = curved;
                    lifetime = ground (arith, same);
                  }
            ]
      ]

  issue_ttl :
      (r r' : ChallengeNonceRegistry) (now : ℕ) (wallet nonce phrase : Bytes)
      (candidates : List Bytes) (curve : LissajousParams)
      → issue r now wallet candidates phrase curve ≡ some (r', nonce)
      → r'.ttl_secs ≡ r.ttl_secs
  unfolding issue
  issue_ttl r r' now wallet nonce phrase candidates curve h =
      elim (Option-cases (
        fresh_nonce candidates
          (prune_stale_wallet r now (or_default (get wallet r.entries))).by_nonce)) [
            | inl out ↦ absurd (ground (arith, rw (out, issue) at h))
            | inr (c, e) ↦ let same = rw (e, issue) at h in ground (arith, same)
          ]

  -- A challenge that the endpoint answers with can be used for as long as the answer says: until the whole seconds since then exceed `expires_in`, its nonce shows the phrase and the curve of the answer for the wallet that was named, so does the wallet's pointer, and the registry accepts the nonce. The nonce showed nothing before.
  pub challenge_handler_accepted :
      (r r' : ChallengeNonceRegistry) (now later : ℕ) (candidates : List Bytes)
      (curve : LissajousParams) (wallet_text : Bytes) (answer : ChallengeResponse)
      → challenge_handler from_str choose_multiple r now candidates curve wallet_text
        ≡ some (r', ok answer)
      → as_secs (later - now) ≤ answer.expires_in
      → (wallet : Bytes) × (from_str wallet_text ≡ some wallet)
        × (peek_exact_challenge r now wallet answer.nonce ≡ none)
        × (peek_exact_challenge r' later wallet answer.nonce ≡ some (answer.phrase, answer.curve))
        × (peek_challenge r' later wallet ≡ some (answer.phrase, answer.curve))
        × (is_ok (validate_and_consume_exact r' later wallet answer.nonce).1 ≡ true)
  challenge_handler_accepted r r' now later candidates curve wallet_text answer h soon =
      let i = challenge_handler-IsIssued r r' now candidates curve wallet_text answer h in
      let (fresh, exact, pointed) =
        issue_shows r r' now later i.wallet answer.nonce answer.phrase candidates answer.curve
          i.issued in
      let ttl =
        issue_ttl r r' now i.wallet answer.nonce answer.phrase candidates answer.curve i.issued in
      let live : shown r now later answer.phrase answer.curve ≡ some (answer.phrase, answer.curve) =
        ground (arith, soon, ttl, i.lifetime) in
      let accepted = (validate_and_consume_exact_once r' later i.wallet answer.nonce).0 in
      (
        i.wallet,
        i.parsed,
        fresh,
        exact ∙ live,
        pointed ∙ live,
        accepted ∙ ap is_some (exact ∙ live),
      )
