-- ===== src/Validation/Verdict/Refunds.antt =====
-- Which failures of src/validation/handler.rs refund the budgets.
use executor_node.Prelude.{
  ℕ, ◌+◌, ◌≡◌, refl, ap, ◌∙◌, sym, inl, inr, true, not, ◌&&◌, Option, none, some, Bytes, Bytes_eq,
  arith, Result, err, Bool-cases, Result-cases, nat_eq, leb, is_some_and, bytes, ◌==◌,
}
use executor_node.Error.{AppError}
use Prim.Native.String.{String}
use executor_node.Auth.Ip.{IpAddr, IpAddr_eq}
use executor_node.Integrator.Tracker.{IntegratorState}
use executor_node.Validation.Composite.{rejects, requires_friction, score, RiskComponents}
use executor_node.Validation.Admission.{request_ip}
use executor_node.Validation.Admission.Laws.{IsBudgeted}
use executor_node.Validation.Handler.{
  Services, Call, Prepared, Response, ValidatorSuccessBody, ValidatorErrorBody, api_key_of,
  parsed_success, parsed_rejection, validation_failure, forward, score_success,
}
use executor_node.Validation.Verdict.{
  reject, read_rejection, accept, read_success, judge, answer, concluded, validated, risks_of,
  conclude, admitted,
}
use executor_node.State.{AppState}
use executor_node.Validation.Verdict.Guard.{
  is_verdict, andthen_err, andthen_ok, err_inj, Refunds, Keeps, guarded-Refunds, admission-Keeps,
}
use executor_node.Validation.Verdict.Untouched.{forward-IsUntouched}

failure-is_verdict : (r o : Option String) → is_verdict (validation_failure r o) ≡ true
unfolding is_verdict validation_failure
failure-is_verdict r none = refl
failure-is_verdict r (some status) = refl

err-is_verdict :
    {A : Type 0} (r o : Option String) (e : AppError)
    → ◌≡◌ {A = Result AppError A} (err (validation_failure r o)) (err e)
    → is_verdict e ≡ true
err-is_verdict r o e h = ground (arith, failure-is_verdict r o)

reject-is_verdict :
    (s : AppState) (now : ℕ) (ip : IpAddr) (b : ValidatorErrorBody) (e : AppError)
    → (reject s now ip b).1 ≡ err e
    → is_verdict e ≡ true
unfolding reject
reject-is_verdict s now ip b e h = err-is_verdict _ _ e h

read_rejection-Refunds :
    (s : AppState) (now : ℕ) (k w : Bytes) (ip : IpAddr) (o : Option ValidatorErrorBody)
    → Refunds s k w (read_rejection s now k w ip o)
unfolding read_rejection
read_rejection-Refunds s now k w ip none e h v = (refl, refl)
read_rejection-Refunds s now k w ip (some b) e h v =
    elim (Bool-cases (is_some_and b.reason (λ r. r == bytes "projection_update_required"))) [
      | inl outdated ↦ rw outdated (refl, refl)
      | inr counts ↦ absurd (ground (arith, v, reject-is_verdict s now ip b e (rw counts at h)))
    ]

module _ (services : Services) where
  pub score_success-is_verdict :
      (s : AppState) (w : Bytes) (r : RiskComponents) (o : Option String) (e : AppError)
      → (score_success services s w r o).1 ≡ err e
      → is_verdict e ≡ true
  unfolding score_success
  score_success-is_verdict s w r o e h =
      let composite = score services.float s.scoring_config r in
      elim (Bool-cases (rejects s.scoring_config composite)) [
        | inl rejected ↦ err-is_verdict _ _ e (rw rejected at h)
        | inr below ↦ elim (Bool-cases (requires_friction s.scoring_config composite)) [
          | inl suspicious ↦ err-is_verdict _ _ e (rw (below, suspicious) at h)
          | inr quiet ↦ absurd (ground (arith, rw (below, quiet) at h))
        ]
      ]

  accept-is_verdict :
      (s : AppState) (c : Call) (w : Bytes) (n : ℕ) (b : ValidatorSuccessBody) (e : AppError)
      → (accept services s c w n b).1 ≡ err e
      → is_verdict e ≡ true
  unfolding accept
  accept-is_verdict s c w n b e h =
      let step = score_success services s w (risks_of services s c w b) b.study_record_status in
      elim (Result-cases step.1) [
        | inr (e', refused) ↦
            score_success-is_verdict s w (risks_of services s c w b) b.study_record_status e (
              refused
              ∙ ap (λ x. err x)
                  (err_inj
                    (sym (ap (λ x. x.1) (andthen_err step (answer services n b) e' refused)) ∙ h)))
        | inl (u, passed) ↦ absurd (
            ground
              (arith, sym (ap (λ x. x.1) (andthen_ok step (answer services n b) u passed)) ∙ h))
      ]

  read_success-Refunds :
      (s : AppState) (c : Call) (w : Bytes) (n : ℕ) (o : Option ValidatorSuccessBody)
      → Refunds s (api_key_of c) w (read_success services s c w n o)
  unfolding read_success
  read_success-Refunds s c w n none e h v = (refl, refl)
  read_success-Refunds s c w n (some b) e h v = elim (Bool-cases b.valid) [
    | inl valid ↦ absurd (ground (arith, accept-is_verdict s c w n b e (rw valid at h)))
    | inr contradictory ↦ rw contradictory (refl, refl)
  ]

  -- After the validator.
  conclude-Refunds :
      (s : AppState) (now : ℕ) (c : Call) (w : Bytes) (n : ℕ) (o : Option Response)
      → Refunds s (api_key_of c) w (conclude services s now c w n o)
  unfolding conclude judge
  conclude-Refunds s now c w n none e h v = absurd (ground arith)
  conclude-Refunds s now c w n (some r) e h v =
      let s' : AppState = record s { validations_performed = s.validations_performed + 1 } in
      let ip = request_ip services.parse_ip c.real_ip_header c.peer in
      elim (Bool-cases (leb 200 r.status && leb r.status 299)) [
        | inl success ↦
            rw (success, conclude)
              (read_success-Refunds s' c w n (parsed_success r.success) e (rw success at h) v)
        | inr failure ↦ elim (Bool-cases (not (nat_eq r.status 400) && not (nat_eq r.status 409))) [
          | inl infrastructure ↦ rw (failure, infrastructure, conclude) (refl, refl)
          | inr rejection ↦
              rw (failure, rejection, conclude)
                (read_rejection-Refunds s' now (api_key_of c) w ip (parsed_rejection r.rejection) e
                  (rw (failure, rejection) at h) v)
        ]
      ]

  validated-Refunds :
      (now : ℕ) (c : Call) (p : Prepared) (s : AppState) (n : ℕ)
      → Refunds s (api_key_of c) p.wallet (validated services now c p s n)
  unfolding validated
  validated-Refunds now c p s n =
      let sent = forward services s now c p in
      guarded-Refunds s (api_key_of c) p.wallet sent (concluded services now c p n)
        (forward-IsUntouched services s now c p) (λ o. conclude-Refunds sent.0 now c p.wallet n o)

  pub admitted-Keeps :
      (now : ℕ) (c : Call) (p : Prepared) (s : AppState) (i : IntegratorState)
      → IsBudgeted s (api_key_of c) i
      → Keeps s now (api_key_of c) p.wallet (admitted services now c p s tt)
  unfolding admitted
  admitted-Keeps now c p s i b =
      admission-Keeps s now (api_key_of c) p.wallet i (validated services now c p) b
        (λ s' n. validated-Refunds now c p s' n)
