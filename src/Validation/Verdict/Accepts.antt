-- ===== src/Validation/Verdict/Accepts.antt =====
-- Which answers of the validator src/validation/handler.rs lets a capture pass with.
use executor_node.Prelude.{
  ℕ, ◌+◌, ◌≡◌, refl, ap, ◌∙◌, sym, inl, inr, true, false, not, ◌&&◌, Option, none, some, Bytes,
  bytes, Bytes_eq, ◌==◌, arith, ok, Bool-cases, Option-cases, Result-cases, nat_eq, leb,
  is_some_and,
}
use Prim.Native.String.{String}
use executor_node.Auth.Ip.{IpAddr, IpAddr_eq}
use executor_node.Integrator.WalletAttempts.{refund_on_success}
use executor_node.Validation.Composite.{RiskComponents, rejects, requires_friction, score}
use executor_node.Validation.Admission.{Step, request_ip}
use executor_node.Validation.Handler.{
  Services, Call, Response, ValidatorSuccessBody, ValidatorErrorBody, ValidateFeaturesResponse,
  andthen, api_key_of, parsed_success, parsed_rejection, score_success,
}
use executor_node.Validation.Verdict.{
  reject, read_rejection, accept, read_success, judge, conclude, answer, risks_of,
}
use executor_node.Validation.Verdict.Guard.{andthen_err, andthen_ok}
use executor_node.State.{AppState}

-- A capture that passes: the validator's body says that it is valid, the composite score neither
-- rejects nor asks for another capture, the quota stays deducted and the attempt is given back.
pub record IsAccepted (services : Services) (s : AppState) (c : Call) (w : Bytes) (n : ℕ)
    (r : Response) (p : Step ValidateFeaturesResponse) : Type 0 where
  pub body : ValidatorSuccessBody
  pub success : (leb 200 r.status && leb r.status 299) ≡ true
  pub parsed : parsed_success r.success ≡ some body
  pub valid : body.valid ≡ true
  pub not_rejected :
      rejects s.scoring_config
        (score services.float s.scoring_config (risks_of services s c w body))
      ≡ false
  pub not_suspicious :
      requires_friction s.scoring_config
        (score services.float s.scoring_config (risks_of services s c w body))
      ≡ false
  pub charged : p.0.tracker ≡ s.tracker
  pub given_back : p.0.wallet_attempts ≡ refund_on_success s.wallet_attempts w

rejection_refuses :
    (s : AppState) (now : ℕ) (k w : Bytes) (ip : IpAddr) (o : Option ValidatorErrorBody)
    (a : ValidateFeaturesResponse)
    → (read_rejection s now k w ip o).1 ≡ ok a
    → ⊥
unfolding read_rejection reject
rejection_refuses s now k w ip none a h = ground arith
rejection_refuses s now k w ip (some b) a h =
    elim (Bool-cases (is_some_and b.reason (λ r. r == bytes "projection_update_required"))) [
      | inl outdated ↦ ground (arith, rw outdated at h)
      | inr counts ↦ ground (arith, rw counts at h)
    ]

module _ (services : Services) where
  pub score_success_ok :
      (s : AppState) (w : Bytes) (risks : RiskComponents) (o : Option String)
      → (score_success services s w risks o).1 ≡ ok tt
      → (rejects s.scoring_config (score services.float s.scoring_config risks) ≡ false)
        × (requires_friction s.scoring_config (score services.float s.scoring_config risks) ≡ false)
        × ((score_success services s w risks o).0
            ≡ record s { wallet_attempts = refund_on_success s.wallet_attempts w })
  unfolding score_success
  score_success_ok s w risks o h =
      let composite = score services.float s.scoring_config risks in
      elim (Bool-cases (rejects s.scoring_config composite)) [
        | inl rejected ↦ absurd (ground (arith, rw rejected at h))
        | inr below ↦ elim (Bool-cases (requires_friction s.scoring_config composite)) [
          | inl suspicious ↦ absurd (ground (arith, rw (below, suspicious) at h))
          | inr quiet ↦ (below, quiet, rw (below, quiet, score_success) refl)
        ]
      ]

  -- When the validator has answered, a capture passes only if the answer is a success that says it is valid, all its risks are scores between 0 and 1, and the composite of these risks and the executor's own is neither above the rejection threshold nor at the friction threshold. Then the quota stays deducted and the wallet's attempt is given back.
  pub conclude-IsAccepted :
      (s : AppState) (now : ℕ) (c : Call) (w : Bytes) (n : ℕ) (r : Response)
      (a : ValidateFeaturesResponse)
      → (conclude services s now c w n (some r)).1 ≡ ok a
      → IsAccepted services s c w n r (conclude services s now c w n (some r))
  unfolding conclude judge read_success accept
  conclude-IsAccepted s now c w n r a h =
      let s' : AppState = record s { validations_performed = s.validations_performed + 1 } in
      let ip = request_ip services.parse_ip c.real_ip_header c.peer in
      elim (Bool-cases (leb 200 r.status && leb r.status 299)) [
        | inr failure ↦ elim (Bool-cases (not (nat_eq r.status 400) && not (nat_eq r.status 409))) [
          | inl infrastructure ↦
              absurd (ground (arith, rw (failure, infrastructure, conclude) at h))
          | inr rejection ↦ absurd (
              rejection_refuses s' now (api_key_of c) w ip (parsed_rejection r.rejection) a
                (rw (failure, rejection, conclude) at h))
        ]
        | inl success ↦ elim (Option-cases (parsed_success r.success)) [
          | inl garbled ↦ absurd (ground (arith, rw (success, garbled, conclude, judge) at h))
          | inr (b, parsed) ↦ elim (Bool-cases b.valid) [
            | inr contradictory ↦ absurd (
                ground
                  (arith, rw (success, parsed, contradictory, conclude, judge, read_success) at h))
            | inl valid ↦
                let step =
                  score_success services s' w (risks_of services s' c w b) b.study_record_status in
                let whole : conclude services s now c w n (some r)
                    ≡ andthen step (answer services n b) =
                  rw (success, parsed, valid, conclude, judge, read_success) refl in
                elim (Result-cases step.1) [
                  | inr (e, refused) ↦ absurd (
                      ground (
                        arith,
                        ap (λ x. x.1)
                              (sym (whole ∙ andthen_err step (answer services n b) e refused))
                            ∙ h,
                      ))
                  | inl (u, passed) ↦
                      let scored =
                        score_success_ok s' w (risks_of services s' c w b) b.study_record_status
                          passed in
                      let end = whole ∙ andthen_ok step (answer services n b) tt passed in
                      record {
                        body = b;
                        success = success;
                        parsed = parsed;
                        valid = valid;
                        not_rejected = scored.0;
                        not_suspicious = scored.1;
                        charged = ap (λ x. x.0.tracker) end ∙ ap (λ x. x.tracker) scored.2;
                        given_back =
                            ap (λ x. x.0.wallet_attempts) end
                            ∙ ap (λ x. x.wallet_attempts) scored.2;
                      }
                ]
          ]
        ]
      ]
