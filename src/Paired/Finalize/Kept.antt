-- ===== src/Paired/Finalize/Kept.antt =====
-- What a finalize of src/paired/finalize.rs that is no verdict costs.
use executor_node.Prelude.{
  ℕ, ◌+◌, ◌≡◌, refl, sym, ap, ◌∙◌, subst, inl, inr, true, false, not, ◌&&◌, ◌||◌, Option, none,
  some, Bytes, Bytes_eq, bytes, ◌==◌, arith, ltb, leb, nat_eq, is_some_and, err, Bool-cases,
  Option-cases, Result-cases,
}
use executor_node.Error.{AppError}
use executor_node.Integrator.Tracker.{IntegratorState}
use executor_node.Validation.Admission.Laws.{IsKept, IsBudgeted}
use executor_node.Validation.Handler.{
  Services, ValidatorSuccessBody, ValidatorErrorBody, andthen, parsed_success, parsed_rejection,
  score_success,
}
use executor_node.Validation.Intent.{ProjectionIntent, writes_baseline}
use executor_node.Validation.Verdict.Guard.{
  is_verdict, andthen_err, andthen_ok, err_inj, Refunds, Keeps, guarded-Refunds, admission-Keeps,
  screened-Keeps,
}
use executor_node.Validation.Verdict.Refunds.{score_success-is_verdict}
use executor_node.Paired.Upstream.{Reply}
use executor_node.Paired.Finalize.{check_session, max_assurance_tier}
use executor_node.Paired.Finalize.Handler.{
  SessionCall, Bodies, session_key, session_risks, session_answer, reject_session, accept_session,
  read_accepted, refuse, rejected, judge_session, conclude_session, forward_session,
  session_forwarded, session_admitted, session_screen, validate_session_handler,
}
use executor_node.Paired.Finalize.Laws.{check_session-wallet}
use executor_node.Paired.Finalize.Untouched.{
  session_screen-IsUntouched, forward_session-IsUntouched,
}
use executor_node.State.{AppState}

module _ (services : Services) (bodies : Bodies) where
  accept_session-Refunds :
      (s : AppState) (c : SessionCall) (w : Bytes) (n : ℕ) (b : ValidatorSuccessBody) (tier : ℕ)
      → Refunds s (session_key c) w (accept_session services bodies s c w n b tier)
  unfolding accept_session
  accept_session-Refunds s c w n b tier e h v =
      elim (Bool-cases (not b.valid || ltb max_assurance_tier tier)) [
        | inl contradictory ↦ rw (contradictory, accept_session) (refl, refl)
        | inr consistent ↦
            let risks = session_risks services bodies s c w b in
            let step = score_success services s w risks none in
            let end = session_answer services bodies n b tier in
            let h' : (andthen step end).1 ≡ err e = rw (consistent, accept_session) at h in
            elim (Result-cases step.1) [
              | inl (u, passed) ↦
                  absurd (ground (arith, sym (ap (λ x. x.1) (andthen_ok step end u passed)) ∙ h'))
              | inr (e', refused) ↦
                  let same : e' ≡ e =
                    err_inj (sym (ap (λ x. x.1) (andthen_err step end e' refused)) ∙ h') in
                  let verdict =
                    score_success-is_verdict services s w risks none e
                      (refused ∙ ap (λ x. err x) same) in
                  absurd (ground (arith, verdict, v))
            ]
      ]

  read_accepted-Refunds :
      (s : AppState) (c : SessionCall) (w : Bytes) (n : ℕ) (o : Option ValidatorSuccessBody)
      (tier : Option ℕ)
      → Refunds s (session_key c) w (read_accepted services bodies s c w n o tier)
  unfolding read_accepted
  read_accepted-Refunds s c w n none tier e h v = (refl, refl)
  read_accepted-Refunds s c w n (some b) none e h v = (refl, refl)
  read_accepted-Refunds s c w n (some b) (some tier) e h v =
      accept_session-Refunds s c w n b tier e h v

  refuse-Refunds :
      (s : AppState) (c : SessionCall) (w : Bytes) (status : ℕ) (payload : bodies.Json)
      → Refunds s (session_key c) w (refuse services bodies s c w status payload)
  unfolding refuse
  refuse-Refunds s c w status payload e h v = (refl, refl)

  -- The error of a rejection is a verdict.
  rejected-is_verdict :
      (s : AppState) (now : ℕ) (c : SessionCall) (w : Bytes) (intent : ProjectionIntent)
      (b : ValidatorErrorBody) (e : AppError)
      → (rejected services bodies s now c w intent b).1 ≡ err e
      → is_verdict e ≡ true
  unfolding rejected reject_session is_verdict
  rejected-is_verdict s now c w intent b e h =
      let probing = is_some_and b.probing_detected (λ p. p) in
      elim (Bool-cases (is_some_and b.reason (λ r. r == bytes "anchor_retry"))) [
        | inr other ↦ ground (arith, rw (other, rejected, reject_session) at h)
        | inl retry ↦ elim (Bool-cases (not (writes_baseline intent) || probing)) [
          | inl untrusted ↦ ground (arith, rw (retry, untrusted, rejected, reject_session) at h)
          | inr trusted ↦ ground (arith, rw (retry, trusted, rejected, reject_session) at h)
        ]
      ]

  judge_session-Refunds :
      (s : AppState) (now : ℕ) (c : SessionCall) (w : Bytes) (n : ℕ) (intent : ProjectionIntent)
      (status : ℕ) (payload : bodies.Json)
      → Refunds s
          (session_key c)
          w
          (judge_session services bodies s now c w n intent status payload)
  unfolding judge_session
  judge_session-Refunds s now c w n intent status payload e h v =
      elim (Bool-cases (leb 200 status && leb status 299)) [
        | inl success ↦
            rw (success, judge_session)
              (read_accepted-Refunds s c w n (parsed_success (bodies.success payload))
                (bodies.assurance_tier payload) e (rw (success, judge_session) at h) v)
        | inr failure ↦ elim (Bool-cases (nat_eq status 400)) [
          | inr other ↦
              rw (failure, other, judge_session)
                (refuse-Refunds s c w status payload e (rw (failure, other, judge_session) at h) v)
          | inl bad_request ↦ elim (Option-cases (parsed_rejection (bodies.rejection payload))) [
            | inl garbled ↦
                rw (failure, bad_request, garbled, judge_session)
                  (refuse-Refunds s c w status payload e
                    (rw (failure, bad_request, garbled, judge_session) at h) v)
            | inr (b, parsed) ↦
                let verdict =
                  rejected-is_verdict s now c w intent b e
                    (rw (failure, bad_request, parsed, judge_session) at h) in
                absurd (ground (arith, verdict, v))
          ]
        ]
      ]

  conclude_session-Refunds :
      (now : ℕ) (c : SessionCall) (w : Bytes) (n : ℕ) (s : AppState)
      (p : ProjectionIntent × Reply bodies.Json)
      → Refunds s (session_key c) w (conclude_session services bodies now c w n s p)
  unfolding conclude_session
  conclude_session-Refunds now c w n s (intent, reply) e h v =
      let counted : AppState = record s { validations_performed = s.validations_performed + 1 } in
      elim (Option-cases reply.body) [
        | inl garbled ↦ rw (garbled, conclude_session) (refl, refl)
        | inr (payload, parsed) ↦
            rw (parsed, conclude_session)
              (judge_session-Refunds counted now c w n intent reply.status payload e
                (rw (parsed, conclude_session) at h) v)
      ]

  session_admitted-Keeps :
      (now : ℕ) (c : SessionCall) (w : Bytes) (s : AppState) (i : IntegratorState)
      → IsBudgeted s (session_key c) i
      → Keeps s now (session_key c) w (session_admitted services bodies now c w s tt)
  unfolding session_admitted session_forwarded
  session_admitted-Keeps now c w s i b =
      admission-Keeps s now (session_key c) w i (session_forwarded services bodies now c w) b
        λ s' n.
          guarded-Refunds s' (session_key c) w (forward_session services bodies s' c w)
            (conclude_session services bodies now c w n)
            (forward_session-IsUntouched services bodies s' c w)
            (conclude_session-Refunds now c w n (forward_session services bodies s' c w).0)

  -- A finalize of a paired session that ends with any error but a verdict on the capture leaves the entry of a key with a finite quota as it was, and what the attempt counter knows of the wallet at that time. A refusal by the session's rules, a reply that does not parse, a success that contradicts itself, a tier above the highest and an unreachable service all count. (The limit on attempts is a byte, and its window is not empty.)
  pub validate_session_handler_keeps :
      (s : AppState) (now : ℕ) (c : SessionCall) (w : Bytes) (i : IntegratorState) (e : AppError)
      → services.wallets.from_str c.request.wallet_id ≡ some w
      → IsBudgeted s (session_key c) i
      → (validate_session_handler services bodies s now c).1 ≡ err e
      → is_verdict e ≡ false
      → IsKept s (validate_session_handler services bodies s now c).0 now (session_key c) w
  unfolding validate_session_handler
  validate_session_handler_keeps s now c w i e parsed b h v =
      let checked = check_session services.wallets.from_str c.request in
      elim (Result-cases checked) [
        | inr (e', refused) ↦ rw (refused, validate_session_handler) (refl, refl)
        | inl (w', passed) ↦
            let same : w' ≡ w =
              check_session-wallet services.wallets.from_str c.request w w' parsed passed in
            let gates = session_screen services bodies s now c in
            let next = session_admitted services bodies now c w' in
            let whole : validate_session_handler services bodies s now c ≡ andthen gates next =
              rw (passed, validate_session_handler) refl in
            let kept =
              screened-Keeps s now (session_key c) w' i gates next
                (session_screen-IsUntouched services bodies s now c) b
                (λ u b'. session_admitted-Keeps now c w' gates.0 i b') e
                (sym (ap (λ x. x.1) whole) ∙ h) v in
            subst (λ x. IsKept s x.0 now (session_key c) w) (sym whole)
              (subst (λ x. IsKept s (andthen gates next).0 now (session_key c) x) same kept)
      ]
