-- ===== src/Validation/Verdict/Laws.antt =====
-- What a run of `validate_features_handler` of src/validation/handler.rs costs.
use executor_node.Prelude.{
  ℕ, ◌≡◌, refl, ap, ◌∙◌, sym, subst, inl, inr, false, not, Option, some, Bytes, Bytes_eq, arith, ok,
  err, Bool-cases, Result-cases, is_some_and,
}
use executor_node.Error.{AppError}
use executor_node.Auth.Ip.{IpAddr_eq}
use executor_node.Integrator.Tracker.{IntegratorState}
use executor_node.Validation.Admission.Laws.{IsKept, IsBudgeted}
use executor_node.Validation.Handler.{
  Services, Call, Prepared, andthen, api_key_of, prepare, authorize, check_challenge, version_of,
}
use executor_node.Validation.Request.{validate}
use executor_node.Validation.Authorization.{verify_wallet_authorization}
use executor_node.Validation.Intent.{validate_compatibility_evidence_projection_policy}
use executor_node.Validation.Verdict.{screen, admitted, validate_features_handler}
use executor_node.State.{AppState}
use executor_node.Validation.Verdict.Guard.{is_verdict, screened-Keeps}
use executor_node.Validation.Verdict.Refunds.{admitted-Keeps}
use executor_node.Validation.Verdict.Untouched.{screen-IsUntouched}

module _ (services : Services) where
  challenge_wallet :
      (s : AppState) (now : ℕ) (w : Bytes) (given : Option Bytes) (p : Prepared)
      → check_challenge services s now w given ≡ ok p
      → p.wallet ≡ w
  unfolding check_challenge
  challenge_wallet s now w given p h = ground arith

  authorize_wallet :
      (s : AppState) (now : ℕ) (c : Call) (w : Bytes) (p : Prepared)
      → authorize services s now c w ≡ ok p
      → p.wallet ≡ w
  unfolding authorize
  authorize_wallet s now c w p h =
      elim (Bool-cases (is_some_and c.request.study (λ study. not (validate study)))) [
        | inl bad ↦ absurd (ground (arith, rw bad at h))
        | inr good ↦
            elim (Result-cases
              (verify_wallet_authorization services.wallets c.request w (version_of c))) [
                | inr (e, unsigned) ↦ absurd (ground (arith, rw (good, unsigned) at h))
                | inl (nonce, signed) ↦
                    let policy =
                      validate_compatibility_evidence_projection_policy (version_of c)
                        c.request.compatibility_evidence in
                    elim (Result-cases policy) [
                      | inr (e, refused) ↦ absurd (ground (arith, rw (good, signed, refused) at h))
                      | inl (u, allowed) ↦
                          challenge_wallet s now w nonce p (rw (good, signed, allowed) at h)
                    ]
              ]
      ]

  prepare_wallet :
      (s : AppState) (now : ℕ) (c : Call) (w : Bytes) (p : Prepared)
      → services.wallets.from_str c.request.wallet_id ≡ some w
      → prepare services s now c ≡ ok p
      → p.wallet ≡ w
  unfolding prepare
  prepare_wallet s now c w p parsed h = authorize_wallet s now c w p (rw (parsed, prepare) at h)

  -- Whatever goes wrong, only a verdict costs: if a run ends with an error that is neither of the two verdicts, then the entry of a key with a finite quota is as before, and so is what the attempt counter knows of the wallet at that time. (The limit on attempts is a byte, and its window is not empty.)
  pub validate_features_handler_keeps :
      (s : AppState) (now : ℕ) (c : Call) (w : Bytes) (i : IntegratorState) (e : AppError)
      → services.wallets.from_str c.request.wallet_id ≡ some w
      → IsBudgeted s (api_key_of c) i
      → (validate_features_handler services s now c).1 ≡ err e
      → is_verdict e ≡ false
      → IsKept s (validate_features_handler services s now c).0 now (api_key_of c) w
  unfolding validate_features_handler
  validate_features_handler_keeps s now c w i e parsed b h v =
      elim (Result-cases (prepare services s now c)) [
        | inr (e', unprepared) ↦ rw (unprepared, validate_features_handler) (refl, refl)
        | inl (p, prepared) ↦
            let same = prepare_wallet s now c w p parsed prepared in
            let whole : validate_features_handler services s now c
                ≡ andthen (screen services s now c) (admitted services now c p) =
              rw (prepared, validate_features_handler) refl in
            let kept =
              screened-Keeps s now (api_key_of c) p.wallet i (screen services s now c)
                (admitted services now c p) (screen-IsUntouched services s now c) b
                (λ u b'. admitted-Keeps services now c p _ i b') e (sym (ap (λ x. x.1) whole) ∙ h)
                v in
            subst (λ x. IsKept s x.0 now (api_key_of c) w) (sym whole)
              (subst
                (λ x.
                  IsKept s (andthen (screen services s now c) (admitted services now c p)).0 now
                    (api_key_of c) x)
                same kept)
      ]
