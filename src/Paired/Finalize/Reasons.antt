-- ===== src/Paired/Finalize/Reasons.antt =====
-- Which errors src/paired/finalize.rs answers with, and what a verdict changes.
use Prim.Native.String.{String}
use executor_node.Prelude.{
  ℕ, ◌+◌, ◌*◌, ◌≤◌, ◌≡◌, ◌⊎◌, ◌≢◌, refl, sym, ap, ◌∙◌, subst, inl, inr, Bool, true, false, not,
  ◌&&◌, ◌||◌, Option, none, some, List, [], ◌∷◌, Bytes, bytes, Bytes_eq, bytes_eq, bytes_eq_iff,
  ◌==◌, arith, ltb, leb, nat_eq, is_some_and, and_then, if◌then◌else◌, err, Bool-cases,
  Option-cases, Result-cases,
}
use executor_node.Error.{
  AppError, validation_failed, paired_rejected, paired_unavailable, paired_technical_failure,
}
use executor_node.Clock.{from_secs}
use executor_node.Map.{insert}
use executor_node.Auth.Ip.{IpAddr, IpAddr_eq}
use executor_node.Integrator.WalletAttempts.{refund_on_success}
use executor_node.Validation.Composite.{RiskComponents, rejects, requires_friction, score}
use executor_node.Validation.Handler.{
  Services, ValidatorSuccessBody, ValidatorErrorBody, andthen, parsed_success, parsed_rejection,
  score_success, validation_failure,
}
use executor_node.Validation.Intent.{ProjectionIntent, writes_baseline}
use executor_node.Validation.Verdict.Guard.{andthen_err, andthen_ok, err_inj}
use executor_node.Paired.Upstream.{Reply}
use executor_node.Paired.Finalize.{
  max_assurance_tier, paired_verdict_reasons, paired_protocol_reasons,
}
use executor_node.Paired.Finalize.Handler.{
  SessionCall, Bodies, ValidateSessionResponse, session_ip, session_risks, session_answer,
  listed_reason, refusal, reject_session, accept_session, read_accepted, refuse, rejected,
  judge_session, conclude_session,
}
use executor_node.State.{AppState}

-- A reason of a list.
abbrev pub IsListed : List String → String → Type 0
IsListed [] r = ⊥
IsListed (x ∷ xs) r = (r ≡ x) ⊎ IsListed xs r

listed_reason-IsListed :
    (xs : List String) (t : Bytes) (r : String)
    → listed_reason xs t ≡ some r
    → IsListed xs r × (bytes r ≡ t)
unfolding listed_reason
listed_reason-IsListed [] t r h = absurd (ground arith)
listed_reason-IsListed (x ∷ xs) t r h = elim (Bool-cases (bytes x == t)) [
  | inl here ↦
      let same : x ≡ r = ground (arith, rw (here, listed_reason) at h) in
      (inl (sym same), ap (λ y. bytes y) (sym same) ∙ (bytes_eq_iff (bytes x) t).0 here)
  | inr later ↦
      let (listed, spelled) = listed_reason-IsListed xs t r (rw (later, listed_reason) at h) in
      (inr listed, spelled)
]

-- What an error of a finalize may tell the client: a rule of the session as a client error, a
-- content rule, the request for another capture, or nothing.
abbrev pub IsPublic : AppError → Type 0
IsPublic (paired_rejected status reason) =
    (400 ≤ status) × (status ≤ 499) × IsListed paired_protocol_reasons reason
IsPublic (validation_failed none) = Unit
IsPublic (validation_failed (some reason)) =
    IsListed ("captcha_required" ∷ paired_verdict_reasons) reason
IsPublic paired_technical_failure = Unit
IsPublic paired_unavailable = Unit
IsPublic _ = ⊥

verdict-IsPublic :
    (o : Option Bytes)
    → IsPublic (validation_failed (and_then o (listed_reason paired_verdict_reasons)))
verdict-IsPublic none = tt
verdict-IsPublic (some t) = elim (Option-cases (listed_reason paired_verdict_reasons t)) [
  | inl unlisted ↦ rw unlisted tt
  | inr (r, listed) ↦ rw listed (inr (listed_reason-IsListed paired_verdict_reasons t r listed).0)
]

refusal-IsPublic : (status : ℕ) (o : Option Bytes) → IsPublic (refusal status o)
unfolding refusal
refusal-IsPublic status none = tt
refusal-IsPublic status (some t) =
    elim (Bool-cases (nat_eq status 503 && (t == bytes "technical_failure"))) [
      | inl technical ↦ rw (technical, refusal) tt
      | inr other ↦ elim (Bool-cases (leb 400 status && leb status 499)) [
        | inr fault ↦ rw (other, fault, refusal) tt
        | inl client ↦ elim (Option-cases (listed_reason paired_protocol_reasons t)) [
          | inl unlisted ↦ rw (other, client, unlisted, refusal) tt
          | inr (r, listed) ↦
              let rule = (listed_reason-IsListed paired_protocol_reasons t r listed).0 in
              rw (other, client, listed, refusal) (ground arith, ground arith, rule)
        ]
      ]
    ]

-- A text that is not the request to retry spells no such reason.
not_retry :
    (o : Option Bytes)
    → is_some_and o (λ r. r == bytes "anchor_retry") ≡ false
    → validation_failed (and_then o (listed_reason paired_verdict_reasons))
      ≢ validation_failed (some "anchor_retry")
not_retry none h e = ground arith
not_retry (some t) h e = elim (Option-cases (listed_reason paired_verdict_reasons t)) [
  | inl unlisted ↦ ground (arith, rw unlisted at e)
  | inr (r, listed) ↦
      let same : r ≡ "anchor_retry" = ground (arith, rw listed at e) in
      let spelled = (listed_reason-IsListed paired_verdict_reasons t r listed).1 in
      let text_ : t ≡ bytes "anchor_retry" = sym spelled ∙ ap (λ x. bytes x) same in
      ground (arith, (bytes_eq_iff t (bytes "anchor_retry")).1 text_)
]

retry_reason :
    (o : Option Bytes)
    → is_some_and o (λ r. r == bytes "anchor_retry") ≡ true
    → (o ≡ some (bytes "anchor_retry"))
      × (and_then o (listed_reason paired_verdict_reasons) ≡ some "anchor_retry")
unfolding listed_reason bytes_eq
retry_reason none h = absurd (ground arith)
retry_reason (some t) h =
    let text_ = (bytes_eq_iff t (bytes "anchor_retry")).0 h in rw text_ (refl, refl)

not_probing : (o : Option Bool) → is_some_and o (λ p. p) ≡ false → o ≢ some true
not_probing none h e = ground arith
not_probing (some p) h e = ground arith

not_none : validation_failed none ≢ validation_failed (some "anchor_retry")
not_none e = ground arith

-- A verdict of a finalize: the quota stays charged; a probing capture blocks the address for a day; and the attempt is given back only if the service asks for a retry of a capture that writes a baseline and does not call it probing, which is also the only case in which the client is told to retry.
pub reject_session_lem :
    (s : AppState) (now : ℕ) (ip : IpAddr) (w : Bytes) (intent : ProjectionIntent)
    (b : ValidatorErrorBody)
    → ((reject_session s now ip w intent b).0.tracker ≡ s.tracker)
      × ((reject_session s now ip w intent b).0.probing_blocklist ≡ (
          if is_some_and b.probing_detected (λ p. p)
          then insert ip (now + from_secs (24 * 3600)) s.probing_blocklist
          else s.probing_blocklist))
      × (((writes_baseline intent ≡ true)
            × (b.probing_detected ≢ some true)
            × (b.reason ≡ some (bytes "anchor_retry"))
            × ((reject_session s now ip w intent b).1 ≡ validation_failed (some "anchor_retry"))
            × ((reject_session s now ip w intent b).0.wallet_attempts
                ≡ refund_on_success s.wallet_attempts w))
          ⊎ (((reject_session s now ip w intent b).1 ≢ validation_failed (some "anchor_retry"))
              × ((reject_session s now ip w intent b).0.wallet_attempts ≡ s.wallet_attempts)))
unfolding reject_session
reject_session_lem s now ip w intent b =
    let probing = is_some_and b.probing_detected (λ p. p) in
    elim (Bool-cases (is_some_and b.reason (λ r. r == bytes "anchor_retry"))) [
      | inr other ↦
          rw (other, reject_session)
            (ground arith, ground arith, inr (not_retry b.reason other, ground arith))
      | inl retry ↦ elim (Bool-cases (not (writes_baseline intent) || probing)) [
        | inl untrusted ↦
            rw (retry, untrusted, reject_session)
              (ground arith, ground arith, inr (not_none, ground arith))
        | inr trusted ↦
            let (asked, reason) = retry_reason b.reason retry in
            let quiet : probing ≡ false = ground arith in
            let writes : writes_baseline intent ≡ true = ground arith in
            rw (retry, trusted, reject_session)
              (
                ground arith,
                ground arith,
                inl (
                  writes,
                  not_probing b.probing_detected quiet,
                  asked,
                  ap (λ r. validation_failed r) reason,
                  rw quiet refl,
                ),
              )
      ]
    ]

failure-IsPublic :
    (o : Option String)
    → (o ≡ none) ⊎ (o ≡ some "captcha_required")
    → IsPublic (validation_failure o none)
unfolding validation_failure
failure-IsPublic o (inl e) = rw e tt
failure-IsPublic o (inr e) = rw e (inl refl)

module _ (services : Services) (bodies : Bodies) where
  score_success-IsPublic :
      (s : AppState) (w : Bytes) (risks : RiskComponents) (e : AppError)
      → (score_success services s w risks none).1 ≡ err e
      → IsPublic e
  unfolding score_success
  score_success-IsPublic s w risks e h =
      let composite = score services.float s.scoring_config risks in
      elim (Bool-cases (rejects s.scoring_config composite)) [
        | inl rejected_ ↦
            subst (λ x. IsPublic x) (err_inj {A = Unit} (rw (rejected_, score_success) at h))
              (failure-IsPublic none (inl refl))
        | inr below ↦ elim (Bool-cases (requires_friction s.scoring_config composite)) [
          | inl suspicious ↦
              subst (λ x. IsPublic x)
                (err_inj {A = Unit} (rw (below, suspicious, score_success) at h))
                (failure-IsPublic (some "captcha_required") (inr refl))
          | inr quiet ↦ absurd (ground (arith, rw (below, quiet, score_success) at h))
        ]
      ]

  accept_session-IsPublic :
      (s : AppState) (c : SessionCall) (w : Bytes) (n : ℕ) (b : ValidatorSuccessBody) (tier : ℕ)
      (e : AppError)
      → (accept_session services bodies s c w n b tier).1 ≡ err e
      → IsPublic e
  unfolding accept_session
  accept_session-IsPublic s c w n b tier e h =
      elim (Bool-cases (not b.valid || ltb max_assurance_tier tier)) [
        | inl contradictory ↦
            subst (λ x. IsPublic x)
              (err_inj {A = ValidateSessionResponse} (rw (contradictory, accept_session) at h)) tt
        | inr consistent ↦
            let risks = session_risks services bodies s c w b in
            let step = score_success services s w risks none in
            let end = session_answer services bodies n b tier in
            let h' : (andthen step end).1 ≡ err e = rw (consistent, accept_session) at h in
            elim (Result-cases step.1) [
              | inl (u, passed) ↦
                  absurd (ground (arith, sym (ap (λ x. x.1) (andthen_ok step end u passed)) ∙ h'))
              | inr (e', refused) ↦
                  let same : e' ≡ e =
                    err_inj (sym (ap (λ x. x.1) (andthen_err step end e' refused)) ∙ h') in
                  score_success-IsPublic s w risks e (refused ∙ ap (λ x. err x) same)
            ]
      ]

  read_accepted-IsPublic :
      (s : AppState) (c : SessionCall) (w : Bytes) (n : ℕ) (o : Option ValidatorSuccessBody)
      (t : Option ℕ) (e : AppError)
      → (read_accepted services bodies s c w n o t).1 ≡ err e
      → IsPublic e
  unfolding read_accepted
  read_accepted-IsPublic s c w n (some b) (some tier) e h =
      accept_session-IsPublic s c w n b tier e h
  read_accepted-IsPublic s c w n (some b) none e h =
      subst (λ x. IsPublic x) (err_inj {A = ValidateSessionResponse} h) tt
  read_accepted-IsPublic s c w n none t e h =
      subst (λ x. IsPublic x) (err_inj {A = ValidateSessionResponse} h) tt

  refuse-IsPublic :
      (s : AppState) (c : SessionCall) (w : Bytes) (status : ℕ) (payload : bodies.Json)
      (e : AppError)
      → (refuse services bodies s c w status payload).1 ≡ err e
      → IsPublic e
  unfolding refuse
  refuse-IsPublic s c w status payload e h =
      subst (λ x. IsPublic x) (err_inj {A = ValidateSessionResponse} h)
        (refusal-IsPublic status (bodies.reason payload))

  reject_session-IsPublic :
      (s : AppState) (now : ℕ) (ip : IpAddr) (w : Bytes) (intent : ProjectionIntent)
      (b : ValidatorErrorBody)
      → IsPublic (reject_session s now ip w intent b).1
  unfolding reject_session
  reject_session-IsPublic s now ip w intent b =
      let probing = is_some_and b.probing_detected (λ p. p) in
      elim (Bool-cases (is_some_and b.reason (λ r. r == bytes "anchor_retry"))) [
        | inr other ↦ rw (other, reject_session) (verdict-IsPublic b.reason)
        | inl retry ↦ elim (Bool-cases (not (writes_baseline intent) || probing)) [
          | inl untrusted ↦ rw (retry, untrusted, reject_session) tt
          | inr trusted ↦ rw (retry, trusted, reject_session) (verdict-IsPublic b.reason)
        ]
      ]

  judge_session-IsPublic :
      (s : AppState) (now : ℕ) (c : SessionCall) (w : Bytes) (n : ℕ) (intent : ProjectionIntent)
      (status : ℕ) (payload : bodies.Json) (e : AppError)
      → (judge_session services bodies s now c w n intent status payload).1 ≡ err e
      → IsPublic e
  unfolding judge_session rejected
  judge_session-IsPublic s now c w n intent status payload e h =
      elim (Bool-cases (leb 200 status && leb status 299)) [
        | inl success ↦
            read_accepted-IsPublic s c w n (parsed_success (bodies.success payload))
              (bodies.assurance_tier payload) e (rw (success, judge_session) at h)
        | inr failure ↦ elim (Bool-cases (nat_eq status 400)) [
          | inr other ↦
              refuse-IsPublic s c w status payload e (rw (failure, other, judge_session) at h)
          | inl bad_request ↦ elim (Option-cases (parsed_rejection (bodies.rejection payload))) [
            | inl garbled ↦
                refuse-IsPublic s c w status payload e
                  (rw (failure, bad_request, garbled, judge_session) at h)
            | inr (b, parsed) ↦
                subst (λ x. IsPublic x)
                  (err_inj {A = ValidateSessionResponse}
                    (rw (failure, bad_request, parsed, judge_session) at h))
                  (reject_session-IsPublic s now (session_ip services bodies c) w intent b)
          ]
        ]
      ]

  -- Whatever the service answers to a finalize, an error tells the client nothing but a rule: a refusal carries a client error and one of the protocol's reasons, a verdict carries no reason, one of the four content reasons or the request for another capture, and all else is an unavailable service or a technical failure.
  pub conclude_session-IsPublic :
      (now : ℕ) (c : SessionCall) (w : Bytes) (n : ℕ) (s : AppState) (intent : ProjectionIntent)
      (reply : Reply bodies.Json) (e : AppError)
      → (conclude_session services bodies now c w n s (intent, reply)).1 ≡ err e
      → IsPublic e
  unfolding conclude_session
  conclude_session-IsPublic now c w n s intent reply e h = elim (Option-cases reply.body) [
    | inl garbled ↦
        subst (λ x. IsPublic x)
          (err_inj {A = ValidateSessionResponse} (rw (garbled, conclude_session) at h)) tt
    | inr (payload, has) ↦
        judge_session-IsPublic (record s { validations_performed = s.validations_performed + 1 })
          now c w n intent reply.status payload e (rw (has, conclude_session) at h)
  ]
