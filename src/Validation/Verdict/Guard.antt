-- ===== src/Validation/Verdict/Guard.antt =====
-- What a guard and an admission of src/validation/handler.rs do to the budgets, whatever the steps
-- between them are.
use executor_node.Prelude.{
  ℕ, ◌≡◌, refl, ap, ◌∙◌, sym, subst, inl, inr, Bool, true, false, Bytes, Bytes_eq, arith, Result,
  ok, err, Result-cases,
}
use executor_node.Error.{AppError, validation_failed, study_validation_failed}
use executor_node.Map.{get}
use executor_node.Integrator.Tracker.{IntegratorState}
use executor_node.Validation.Admission.{Step, admit_attempt, refund_infrastructure_failure}
use executor_node.Validation.Admission.Laws.{
  IsKept, IsBudgeted, IsLimit, attempts_at, admit_attempt-IsKept,
}
use executor_node.Validation.Handler.{andthen}
use executor_node.Validation.Verdict.{guarded}
use executor_node.State.{AppState}
use executor_node.Validation.Verdict.Untouched.{IsUntouched, untouched-IsKept, refund-IsUntouched}

-- The errors that are a verdict on the capture.
unfoldable pub is_verdict : AppError → Bool
is_verdict (validation_failed reason) = true
is_verdict (study_validation_failed reason status) = true
is_verdict _ = false

pub guarded_err :
    {A : Type 0} (k w : Bytes) (p : Step A) (e : AppError)
    → p.1 ≡ err e
    → guarded k w p ≡ (refund_infrastructure_failure p.0 k w, err e)
guarded_err k w (s, err e) e' h = ap (λ r. (refund_infrastructure_failure s k w, r)) h
guarded_err k w (s, ok a) e h = absurd (ground arith)

pub guarded_ok : {A : Type 0} (k w : Bytes) (p : Step A) (a : A) → p.1 ≡ ok a → guarded k w p ≡ p
guarded_ok k w (s, err e) a h = absurd (ground arith)
guarded_ok k w (s, ok a) a' h = refl

pub err_inj : {A : Type 0} {e e' : AppError} → ◌≡◌ {A = Result AppError A} (err e) (err e') → e ≡ e'
err_inj h = ground arith

pub andthen_err :
    {A B : Type 0} (p : Step A) (f : AppState → A → Step B) (e : AppError)
    → p.1 ≡ err e
    → andthen p f ≡ (p.0, err e)
andthen_err (s, err e) f e' h = ground arith
andthen_err (s, ok a) f e h = absurd (ground arith)

pub andthen_ok :
    {A B : Type 0} (p : Step A) (f : AppState → A → Step B) (a : A)
    → p.1 ≡ ok a
    → andthen p f ≡ f p.0 a
andthen_ok (s, err e) f a h = absurd (ground arith)
andthen_ok (s, ok a) f a' h = ground arith

-- An error that is no verdict comes with the refund of both budgets.
abbrev pub Refunds : {A : Type 0} → AppState → Bytes → Bytes → Step A → Type 0
Refunds s k w p =
    (e : AppError)
    → p.1 ≡ err e
    → is_verdict e ≡ false
    → IsUntouched (refund_infrastructure_failure s k w) p.0

-- An error that is no verdict leaves the budgets of a key and a wallet as they were.
abbrev pub Keeps : {A : Type 0} → AppState → ℕ → Bytes → Bytes → Step A → Type 0
Keeps s now k w p = (e : AppError) → p.1 ≡ err e → is_verdict e ≡ false → IsKept s p.0 now k w

pub guarded-Refunds :
    {A B : Type 0} (s : AppState) (k w : Bytes) (sent : Step A) (f : AppState → A → Step B)
    → IsUntouched s sent.0
    → ((a : A) → Refunds sent.0 k w (f sent.0 a))
    → Refunds s k w (andthen (guarded k w sent) f)
guarded-Refunds s k w sent f u later e h v =
    let untouched = refund-IsUntouched s sent.0 k w u in
    elim (Result-cases sent.1) [
      | inr (e', failed) ↦ rw (guarded_err k w sent e' failed) untouched
      | inl (a, replied) ↦
          let step =
            ap (λ x. andthen x f) (guarded_ok k w sent a replied) ∙ andthen_ok sent f a replied in
          let after = later a e (sym (ap (λ x. x.1) step) ∙ h) v in
          (
            ap (λ x. x.0.tracker) step ∙ after.0 ∙ untouched.0,
            ap (λ x. x.0.wallet_attempts) step ∙ after.1 ∙ untouched.1,
          )
    ]

pub admission-Keeps :
    {B : Type 0} (s : AppState) (now : ℕ) (k w : Bytes) (i : IntegratorState)
    (f : AppState → ℕ → Step B)
    → IsBudgeted s k i
    → ((s' : AppState) (n : ℕ) → Refunds s' k w (f s' n))
    → Keeps s now k w (andthen (admit_attempt s now k w) f)
admission-Keeps s now k w i f b later e h v =
    let admission = admit_attempt s now k w in
    let kept = admit_attempt-IsKept s now k w i b in
    elim (Result-cases admission.1) [
      | inr (e', refused) ↦
          subst (λ x. IsKept s x.0 now k w) (sym (andthen_err admission f e' refused))
            (kept.0 e' refused)
      | inl (n, passed) ↦
          let step = andthen_ok admission f n passed in
          subst (λ x. IsKept s x.0 now k w) (sym step)
            (untouched-IsKept s (refund_infrastructure_failure admission.0 k w) (f admission.0 n).0
              now k w (later admission.0 n e (sym (ap (λ x. x.1) step) ∙ h) v) (kept.1 n passed))
    ]

-- Gates that touch no budget, before what keeps them.
pub screened-Keeps :
    {A B : Type 0} (s : AppState) (now : ℕ) (k w : Bytes) (i : IntegratorState) (p : Step A)
    (f : AppState → A → Step B)
    → IsUntouched s p.0
    → IsBudgeted s k i
    → ((a : A) → IsBudgeted p.0 k i → Keeps p.0 now k w (f p.0 a))
    → Keeps s now k w (andthen p f)
screened-Keeps s now k w i p f u b later e h v = elim (Result-cases p.1) [
  | inr (e', refused) ↦
      subst (λ x. IsKept s x.0 now k w) (sym (andthen_err p f e' refused))
        (untouched-IsKept s s p.0 now k w u (refl, refl))
  | inl (a, passed) ↦
      let step = andthen_ok p f a passed in
      let b' : IsBudgeted p.0 k i =
        (ap (λ x. get k x.state) u.0 ∙ b.0, b.1, b.2, subst (λ x. IsLimit x) (sym u.1) b.3) in
      let kept = later a b' e (sym (ap (λ x. x.1) step) ∙ h) v in
      subst (λ x. IsKept s x.0 now k w) (sym step)
        (kept.0 ∙ ap (λ x. get k x.state) u.0, kept.1 ∙ ap (λ x. attempts_at x now w) u.1)
]
