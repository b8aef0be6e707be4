-- ===== src/Relayer/Verify/Laws.antt =====
-- What `/verify` of src/relayer/handler.rs costs, and what it accepts.
use executor_node.Prelude.{
  ℕ, ◌+◌, ◌≡◌, refl, ap, ◌∙◌, ◌↔◌, inl, inr, Bool, true, false, not, ◌&&◌, Option, none, some, List,
  [], ◌∷◌, Bytes, Bytes_eq, bytes, arith, All, Result, ok, err, Bool-cases, Result-cases, length,
  nat_eq, is_some_and, ◌||◌, ◌==◌, ◌<◌, bytes_eq_iff,
}
use executor_node.Error.{AppError, insufficient_quota}
use executor_node.Map.{get}
use executor_node.Integrator.Tracker.{
  IntegratorState, IntegratorTracker, check_and_deduct, deduct, refund,
}
use executor_node.Integrator.Tracker.Laws.{IsWithin, deduct_known, refund-check_and_deduct}
use executor_node.Relayer.Commitments.{check_and_record}
use executor_node.Relayer.Commitments.Laws.{is_known, check_and_record_lem}
use executor_node.Relayer.Verify.{
  VerifyRequest, VerifyResponse, RelayerState, Submission, check_inputs, validate_proof_shape,
  submit_proof, verify_admitted, verify_key, verify_handler,
}

-- The size of an input.
abbrev pub IsWord : Bytes → Type 0
IsWord input = length input ≡ 32

check_inputs-IsWord : (i : ℕ) (xs : List Bytes) → check_inputs i xs ≡ ok tt → All IsWord xs
unfolding check_inputs
check_inputs-IsWord i [] h = tt
check_inputs-IsWord i (x ∷ xs) h = ground (arith, check_inputs-IsWord (i + 1) xs)

check_inputs_ok : (i : ℕ) (xs : List Bytes) → All IsWord xs → check_inputs i xs ≡ ok tt
unfolding check_inputs
check_inputs_ok i [] h = refl
check_inputs_ok i (x ∷ xs) h = ground (arith, check_inputs_ok (i + 1) xs h.1)

-- A proof has the shape exactly when it has 256 bytes, and four inputs of 32 bytes; the inputs are passed on as they are.
pub validate_proof_shape_lem :
    (proof : Bytes) (inputs passed : List Bytes)
    → (validate_proof_shape proof inputs ≡ ok passed)
      ↔ ((length proof ≡ 256) × (length inputs ≡ 4) × All IsWord inputs × (inputs ≡ passed))
unfolding validate_proof_shape
validate_proof_shape_lem proof inputs passed = elim (Result-cases (check_inputs 0 inputs)) [
  | inl (u, fine) ↦
      rw (fine, validate_proof_shape) (ground (arith, check_inputs-IsWord 0 inputs fine))
  | inr (e, bad) ↦ rw (bad, validate_proof_shape) (ground (arith, bad, check_inputs_ok 0 inputs))
]

module _ (submit : Submission) where
  -- The entry of the key after a deduction that is refunded.
  submit_refunds :
      (s : RelayerState) (k proof : Bytes) (shape : Result AppError (List Bytes)) (e : AppError)
      → (submit_proof submit s k proof shape).1 ≡ err e
      → (submit_proof submit s k proof shape).0.tracker ≡ refund s.tracker k
  unfolding submit_proof
  submit_refunds s k proof (err e') e h = refl
  submit_refunds s k proof (ok inputs) e h = elim (Result-cases (submit proof inputs)) [
    | inl (outcome, sent) ↦ absurd (ground (arith, rw (sent, submit_proof) at h))
    | inr (e', failed) ↦ rw (failed, submit_proof) refl
  ]

  deduct_refused :
      (t : IntegratorTracker) (k : Bytes) (i : IntegratorState) (e : AppError)
      → get k t.state ≡ some i
      → (check_and_deduct t k).1 ≡ err e
      → (check_and_deduct t k).0 ≡ t
  unfolding deduct
  deduct_refused t k i e g h = let known = deduct_known t k i g in ground arith

  -- After the deduction, by its answer.
  admitted_entry :
      (s : RelayerState) (t : IntegratorTracker) (k : Bytes) (req : VerifyRequest) (is_first : Bool)
      (i : IntegratorState) (e : AppError)
      → get k t.state ≡ some i
      → IsWithin i
      → 0 < i.quota
      → s.tracker ≡ (check_and_deduct t k).0
      → (verify_admitted submit s k req is_first (check_and_deduct t k).1).1 ≡ err e
      → get k (verify_admitted submit s k req is_first (check_and_deduct t k).1).0.tracker.state
        ≡ some i
  unfolding verify_admitted
  admitted_entry s t k req is_first i e g w q same h =
      elim (Result-cases (check_and_deduct t k).1) [
        | inr (e', exhausted) ↦
            rw (exhausted, verify_admitted)
              (ap (λ x. get k x.state) (same ∙ deduct_refused t k i e' g exhausted) ∙ g)
        | inl (n, deducted) ↦ elim (Bool-cases is_first) [
          | inl first ↦ absurd (ground (arith, rw (deducted, first, verify_admitted) at h))
          | inr again ↦
              let shape = validate_proof_shape req.proof_bytes req.public_inputs in
              let refunded =
                submit_refunds s k req.proof_bytes shape e
                  (rw (deducted, again, verify_admitted) at h) in
              rw (deducted, again, verify_admitted)
                (ap (λ x. get k x.state) (refunded ∙ ap (λ x. refund x k) same)
                  ∙ (refund-check_and_deduct t k i n g w q deducted).2
                  ∙ g)
        ]
      ]

  -- A call that fails costs nothing: whatever the error, the entry of a key with a finite quota is as before.
  pub verify_handler_keeps :
      (s : RelayerState) (now : ℕ) (header : Option Bytes) (req : VerifyRequest)
      (i : IntegratorState) (e : AppError)
      → get (verify_key header) s.tracker.state ≡ some i
      → IsWithin i
      → 0 < i.quota
      → (verify_handler submit s now header req).1 ≡ err e
      → get (verify_key header) (verify_handler submit s now header req).0.tracker.state ≡ some i
  unfolding verify_handler verify_admitted
  verify_handler_keeps s now header req i e g w q h =
      let k = verify_key header in
      let recorded = check_and_record s.commitment_registry now k req.commitment in
      let s' : RelayerState = record s {
        commitment_registry = recorded.0;
        tracker = (check_and_deduct s.tracker k).0;
      } in
      elim (Bool-cases (
        is_some_and req.proof_generation (λ x. not (x == bytes "legacy"))
        || nat_eq (length req.public_inputs) 6)) [
          | inl foreign ↦ rw (foreign, verify_handler) g
          | inr legacy ↦ elim (Bool-cases (not (nat_eq (length req.commitment) 32))) [
            | inl short ↦ rw (legacy, short, verify_handler) g
            | inr whole ↦
                rw (legacy, whole, verify_handler)
                  (admitted_entry s' s.tracker k req (not recorded.1 && req.is_first_verification) i
                    e g w q refl (rw (legacy, whole, verify_handler) at h))
          ]
        ]

  again_registered :
      (s : RelayerState) (k : Bytes) (req : VerifyRequest) (first : Bool)
      (answer : Result AppError ℕ) (r : VerifyResponse)
      → first ≡ false
      → (verify_admitted submit s k req first answer).1 ≡ ok r
      → r.registered ≡ none
  unfolding verify_admitted submit_proof
  again_registered s k req first (err e) r closed h = absurd (ground (arith, h))
  again_registered s k req true (ok n) r closed h = absurd (ground (arith, closed))
  again_registered s k req false (ok n) r closed h =
      elim (Result-cases (validate_proof_shape req.proof_bytes req.public_inputs)) [
        | inr (e, misshapen) ↦ absurd (ground (arith, rw (misshapen, verify_admitted) at h))
        | inl (inputs, shaped) ↦ elim (Result-cases (submit req.proof_bytes inputs)) [
          | inr (e, failed) ↦
              absurd (ground (arith, rw (shaped, verify_admitted, failed, submit_proof) at h))
          | inl (outcome, sent) ↦
              ground (arith, rw (shaped, verify_admitted, sent, submit_proof) at h)
        ]
      ]

  admitted_registry :
      (s : RelayerState) (k : Bytes) (req : VerifyRequest) (first : Bool)
      (answer : Result AppError ℕ)
      → (verify_admitted submit s k req first answer).0.commitment_registry ≡ s.commitment_registry
  unfolding verify_admitted submit_proof
  admitted_registry s k req first (err e) = refl
  admitted_registry s k req true (ok n) = refl
  admitted_registry s k req false (ok n) =
      elim (Result-cases (validate_proof_shape req.proof_bytes req.public_inputs)) [
        | inr (e, misshapen) ↦ rw (misshapen, verify_admitted) refl
        | inl (inputs, shaped) ↦ elim (Result-cases (submit req.proof_bytes inputs)) [
          | inr (e, failed) ↦ rw (shaped, verify_admitted, failed, submit_proof) refl
          | inl (outcome, sent) ↦ rw (shaped, verify_admitted, sent, submit_proof) refl
        ]
      ]

  -- A later call of a known commitment.
  known_registered :
      (s : RelayerState) (later : ℕ) (header : Option Bytes) (req : VerifyRequest)
      (r : VerifyResponse)
      → (check_and_record s.commitment_registry later (verify_key header) req.commitment).1 ≡ true
      → (verify_handler submit s later header req).1 ≡ ok r
      → r.registered ≡ none
  unfolding verify_handler
  known_registered s later header req r known h =
      let k = verify_key header in
      let s' : RelayerState = record s {
        commitment_registry = (check_and_record s.commitment_registry later k req.commitment).0;
        tracker = (check_and_deduct s.tracker k).0;
      } in
      elim (Bool-cases (
        is_some_and req.proof_generation (λ x. not (x == bytes "legacy"))
        || nat_eq (length req.public_inputs) 6)) [
          | inl foreign ↦ absurd (ground (arith, rw (foreign, verify_handler) at h))
          | inr legacy ↦ elim (Bool-cases (not (nat_eq (length req.commitment) 32))) [
            | inl short ↦ absurd (ground (arith, rw (legacy, short, verify_handler) at h))
            | inr whole ↦
                again_registered s' k req
                  (not (check_and_record s.commitment_registry later k req.commitment).1
                    && req.is_first_verification)
                  (check_and_deduct s.tracker k).1 r (ground (arith, known))
                  (rw (legacy, whole, verify_handler) at h)
          ]
        ]

  -- A call whose quota is refused has recorded its commitment.
  refused_known :
      (s : RelayerState) (now : ℕ) (header : Option Bytes) (req : VerifyRequest)
      → (verify_handler submit s now header req).1 ≡ err insufficient_quota
      → is_known
          (verify_handler submit s now header req).0.commitment_registry
          (verify_key header)
          req.commitment
        ≡ true
  unfolding verify_handler
  refused_known s now header req h =
      let k = verify_key header in
      let d = req.commitment in
      elim (Bool-cases (
        is_some_and req.proof_generation (λ x. not (x == bytes "legacy"))
        || nat_eq (length req.public_inputs) 6)) [
          | inl foreign ↦ absurd (ground (arith, rw (foreign, verify_handler) at h))
          | inr legacy ↦ elim (Bool-cases (not (nat_eq (length d) 32))) [
            | inl short ↦ absurd (ground (arith, rw (legacy, short, verify_handler) at h))
            | inr whole ↦
                let recorded = check_and_record s.commitment_registry now k d in
                let s' : RelayerState = record s {
                  commitment_registry = recorded.0;
                  tracker = (check_and_deduct s.tracker k).0;
                } in
                let first = not recorded.1 && req.is_first_verification in
                let kept : (verify_handler submit s now header req).0.commitment_registry
                    ≡ recorded.0 =
                  rw (legacy, whole, verify_handler)
                    (admitted_registry s' k req first (check_and_deduct s.tracker k).1) in
                ap (λ x. is_known x k d) kept
                ∙ (check_and_record_lem s.commitment_registry now k d).2 k d
                ∙ ground (arith, bytes_eq_iff k k, bytes_eq_iff d d)
          ]
        ]

  -- A call whose quota is refused still leaves its commitment known. As long as the registry knows it, no call of the same key with that commitment is answered as registered: whatever else that call carries, whether or not it claims to be the first, and whatever has become of the rest of the state.
  pub verify_handler_recorded :
      (s s' : RelayerState) (now later : ℕ) (header : Option Bytes) (req req' : VerifyRequest)
      (r : VerifyResponse)
      → (verify_handler submit s now header req).1 ≡ err insufficient_quota
      → is_known s'.commitment_registry (verify_key header) req.commitment
        ≡ is_known
            (verify_handler submit s now header req).0.commitment_registry
            (verify_key header)
            req.commitment
      → req'.commitment ≡ req.commitment
      → (verify_handler submit s' later header req').1 ≡ ok r
      → (is_known
            (verify_handler submit s now header req).0.commitment_registry
            (verify_key header)
            req.commitment
          ≡ true)
        × (r.registered ≡ none)
  unfolding verify_handler
  verify_handler_recorded s s' now later header req req' r h still same h' =
      let k = verify_key header in
      let known = refused_known s now header req h in
      let answer = (check_and_record_lem s'.commitment_registry later k req'.commitment).0 in
      (
        known,
        known_registered s' later header req' r
            (answer ∙ ap (is_known s'.commitment_registry k) same ∙ still ∙ known) h',
      )
