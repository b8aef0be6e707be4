-- ===== src/Paired/Finalize/Accepts.antt =====
-- Which replies src/paired/finalize.rs lets a session pass with.
use executor_node.Prelude.{
  ℕ, ◌+◌, ◌≤◌, ◌≡◌, ◌≢◌, refl, sym, ap, ◌∙◌, subst, inl, inr, true, false, not, ◌&&◌, ◌||◌, Option,
  none, some, Bytes, arith, ltb, leb, nat_eq, ok, Bool-cases, Option-cases, Result-cases,
}
use executor_node.Integrator.WalletAttempts.{refund_on_success}
use executor_node.Validation.Composite.{rejects, requires_friction, score}
use executor_node.Validation.Handler.{
  Services, ValidatorSuccessBody, andthen, parsed_success, parsed_rejection, score_success,
}
use executor_node.Validation.Intent.{ProjectionIntent}
use executor_node.Validation.Verdict.Guard.{andthen_err, andthen_ok}
use executor_node.Validation.Verdict.Accepts.{score_success_ok}
use executor_node.Paired.Upstream.{Reply}
use executor_node.Paired.Finalize.{max_assurance_tier}
use executor_node.Paired.Finalize.Handler.{
  SessionCall, Bodies, Finalized, ValidateSessionResponse, session_risks, session_answer,
  accept_session, read_accepted, refuse, rejected, judge_session, conclude_session,
}
use executor_node.State.{AppState}

-- A session that passes: the reply is a success that says so and carries a tier that exists, the
-- composite score neither rejects nor asks for another capture, the quota stays deducted and the
-- attempt is given back.
pub record IsPassed (services : Services) (bodies : Bodies) (s : AppState) (c : SessionCall)
    (w : Bytes) (reply : Reply bodies.Json) (a : ValidateSessionResponse)
    (p : Finalized services bodies) : Type 0 where
  pub payload : bodies.Json
  pub body : ValidatorSuccessBody
  pub has_body : reply.body ≡ some payload
  pub success : (leb 200 reply.status && leb reply.status 299) ≡ true
  pub parsed : parsed_success (bodies.success payload) ≡ some body
  pub valid : body.valid ≡ true
  pub tier : bodies.assurance_tier payload ≡ some a.assurance_tier
  pub known_tier : a.assurance_tier ≤ 2
  pub not_rejected :
      rejects s.scoring_config
        (score services.float s.scoring_config (session_risks services bodies s c w body))
      ≡ false
  pub not_suspicious :
      requires_friction s.scoring_config
        (score services.float s.scoring_config (session_risks services bodies s c w body))
      ≡ false
  pub charged : p.0.tracker ≡ s.tracker
  pub given_back : p.0.wallet_attempts ≡ refund_on_success s.wallet_attempts w

module _ (services : Services) (bodies : Bodies) where
  -- What an accepted body and tier establish.
  abbrev Established :
      AppState
      → SessionCall
      → Bytes
      → ValidatorSuccessBody
      → ℕ
      → ValidateSessionResponse
      → Finalized services bodies
      → Type 0
  Established s c w b tier a p =
      (b.valid ≡ true)
      × (a.assurance_tier ≡ tier)
      × (tier ≤ 2)
      × (rejects s.scoring_config
            (score services.float s.scoring_config (session_risks services bodies s c w b))
          ≡ false)
      × (requires_friction s.scoring_config
            (score services.float s.scoring_config (session_risks services bodies s c w b))
          ≡ false)
      × (p.0.tracker ≡ s.tracker)
      × (p.0.wallet_attempts ≡ refund_on_success s.wallet_attempts w)

  accept_session-ok :
      (s : AppState) (c : SessionCall) (w : Bytes) (n : ℕ) (b : ValidatorSuccessBody) (tier : ℕ)
      (a : ValidateSessionResponse)
      → (accept_session services bodies s c w n b tier).1 ≡ ok a
      → Established s c w b tier a (accept_session services bodies s c w n b tier)
  unfolding accept_session
  accept_session-ok s c w n b tier a h =
      elim (Bool-cases (not b.valid || ltb max_assurance_tier tier)) [
        | inl contradictory ↦ absurd (ground (arith, rw (contradictory, accept_session) at h))
        | inr consistent ↦
            let risks = session_risks services bodies s c w b in
            let step = score_success services s w risks none in
            let end = session_answer services bodies n b tier in
            let whole : accept_session services bodies s c w n b tier ≡ andthen step end =
              rw (consistent, accept_session) refl in
            elim (Result-cases step.1) [
              | inr (e, refused) ↦
                  absurd (
                    ground
                      (arith, ap (λ x. x.1) (sym (whole ∙ andthen_err step end e refused)) ∙ h))
              | inl (u, passed) ↦
                  let (below, quiet, left) = score_success_ok services s w risks none passed in
                  let last = whole ∙ andthen_ok step end tt passed in
                  let told : (end step.0 tt).1 ≡ ok a = ap (λ x. x.1) (sym last) ∙ h in
                  (
                    ground arith,
                    ground (arith, told),
                    ground arith,
                    below,
                    quiet,
                    ap (λ x. x.0.tracker) last ∙ ap (λ x. x.tracker) left,
                    ap (λ x. x.0.wallet_attempts) last ∙ ap (λ x. x.wallet_attempts) left,
                  )
            ]
      ]

  read_accepted-ok :
      (s : AppState) (c : SessionCall) (w : Bytes) (n : ℕ) (o : Option ValidatorSuccessBody)
      (t : Option ℕ) (a : ValidateSessionResponse)
      → (read_accepted services bodies s c w n o t).1 ≡ ok a
      → (b : ValidatorSuccessBody) × (tier : ℕ) × (o ≡ some b)
        × (t ≡ some tier)
        × Established s c w b tier a (read_accepted services bodies s c w n o t)
  unfolding read_accepted
  read_accepted-ok s c w n none t a h = absurd (ground arith)
  read_accepted-ok s c w n (some b) none a h = absurd (ground arith)
  read_accepted-ok s c w n (some b) (some tier) a h =
      (b, tier, refl, refl, accept_session-ok s c w n b tier a h)

  refuse-ne-ok :
      (s : AppState) (c : SessionCall) (w : Bytes) (status : ℕ) (payload : bodies.Json)
      (a : ValidateSessionResponse)
      → (refuse services bodies s c w status payload).1 ≢ ok a
  unfolding refuse
  refuse-ne-ok s c w status payload a h = ground arith

  judge_session-ok :
      (s : AppState) (now : ℕ) (c : SessionCall) (w : Bytes) (n : ℕ) (intent : ProjectionIntent)
      (status : ℕ) (payload : bodies.Json) (a : ValidateSessionResponse)
      → (judge_session services bodies s now c w n intent status payload).1 ≡ ok a
      → ((leb 200 status && leb status 299) ≡ true)
        × (judge_session services bodies s now c w n intent status payload
            ≡ read_accepted services bodies s c w n
                (parsed_success (bodies.success payload))
                (bodies.assurance_tier payload))
  unfolding judge_session rejected
  judge_session-ok s now c w n intent status payload a h =
      elim (Bool-cases (leb 200 status && leb status 299)) [
        | inl success ↦ (success, rw (success, judge_session) refl)
        | inr failure ↦ elim (Bool-cases (nat_eq status 400)) [
          | inr other ↦
              absurd (refuse-ne-ok s c w status payload a (rw (failure, other, judge_session) at h))
          | inl bad_request ↦ elim (Option-cases (parsed_rejection (bodies.rejection payload))) [
            | inl garbled ↦ absurd (
                refuse-ne-ok s c w status payload a
                  (rw (failure, bad_request, garbled, judge_session) at h))
            | inr (b, parsed) ↦
                absurd (ground (arith, rw (failure, bad_request, parsed, judge_session) at h))
          ]
        ]
      ]

  -- Once the service has answered a finalize, the session passes only if the answer is a success whose body parses, says that it is valid and names a tier of at most 2, and the composite of its risks and the executor's own is neither above the rejection threshold nor at the friction threshold. The client is then told that tier, the quota stays deducted and the wallet's attempt is given back.
  pub conclude_session-IsPassed :
      (now : ℕ) (c : SessionCall) (w : Bytes) (n : ℕ) (s : AppState) (intent : ProjectionIntent)
      (reply : Reply bodies.Json) (a : ValidateSessionResponse)
      → (conclude_session services bodies now c w n s (intent, reply)).1 ≡ ok a
      → IsPassed services bodies s c w reply a
          (conclude_session services bodies now c w n s (intent, reply))
  unfolding conclude_session
  conclude_session-IsPassed now c w n s intent reply a h =
      let counted : AppState = record s { validations_performed = s.validations_performed + 1 } in
      elim (Option-cases reply.body) [
        | inl garbled ↦ absurd (ground (arith, rw (garbled, conclude_session) at h))
        | inr (payload, has) ↦
            let judged =
              judge_session services bodies counted now c w n intent reply.status payload in
            let whole : conclude_session services bodies now c w n s (intent, reply) ≡ judged =
              rw (has, conclude_session) refl in
            let (success, read) =
              judge_session-ok counted now c w n intent reply.status payload a
                (ap (λ x. x.1) (sym whole) ∙ h) in
            let (b, tier, parsed, tiered, facts) =
              read_accepted-ok counted c w n (parsed_success (bodies.success payload))
                (bodies.assurance_tier payload) a (ap (λ x. x.1) (sym (whole ∙ read)) ∙ h) in
            record {
              payload = payload;
              body = b;
              has_body = has;
              success = success;
              parsed = parsed;
              valid = facts.0;
              tier = tiered ∙ ap some (sym facts.1);
              known_tier = subst (λ t. t ≤ 2) (sym facts.1) facts.2;
              not_rejected = facts.3;
              not_suspicious = facts.4;
              charged = ap (λ x. x.0.tracker) (whole ∙ read) ∙ facts.5;
              given_back = ap (λ x. x.0.wallet_attempts) (whole ∙ read) ∙ facts.6;
            }
      ]
