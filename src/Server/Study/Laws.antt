-- ===== src/Server/Study/Laws.antt =====
-- What the calls of src/study.rs leave of the capacity.
use executor_node.Prelude.{
  ℕ, ◌+◌, ◌≡◌, refl, inl, inr, Bytes, Option, bytes, arith, nat_eq, ok, err, Bool-cases,
  Result-cases,
}
use executor_node.Error.{AppError}
use executor_node.Auth.RateLimit.{Governor, check_with_retry}
use executor_node.Paired.Upstream.{RawResponse}
use executor_node.Server.Study.{
  StudyGate, StudyBody, StudyEnrolRequest, acquire_study_capacity, with_capacity,
  study_enrol_handler, is_valid_enrolment,
}
use executor_node.State.{AppState}

module _ {Json : Type 0} (from_slice : Bytes → Option Json) (post : StudyBody → Option RawResponse)
    (g : Governor) where
  acquire_permits :
      (s : StudyGate g) (now : ℕ)
      → ((e : AppError)
          → (acquire_study_capacity g s now).1 ≡ err e
          → (acquire_study_capacity g s now).0.study_concurrency ≡ s.study_concurrency)
        × ((u : Unit {0})
            → (acquire_study_capacity g s now).1 ≡ ok u
            → (acquire_study_capacity g s now).0.study_concurrency + 1 ≡ s.study_concurrency)
  unfolding acquire_study_capacity
  acquire_permits s now = elim (Bool-cases (nat_eq s.study_concurrency 0)) [
    | inl none_left ↦
        rw (none_left, acquire_study_capacity) ((λ e h. refl), λ u h. absurd (ground (arith, h)))
    | inr left ↦
        elim (Result-cases
          (check_with_retry g s.study_service_rate_limiter now (bytes "study-service")).1) [
            | inr (n, refused) ↦
                rw (left, refused, acquire_study_capacity)
                  ((λ e h. refl), λ u h. absurd (ground (arith, h)))
            | inl (u, passed) ↦
                rw (left, passed, acquire_study_capacity)
                  ((λ e h. absurd (ground (arith, h))), λ u h. ground arith)
          ]
  ]

  with_capacity_permits :
      (s : StudyGate g) (now : ℕ) (app : AppState) (body : StudyBody)
      → (with_capacity from_slice post g s now app body).0.study_concurrency ≡ s.study_concurrency
  unfolding with_capacity
  with_capacity_permits s now app body = elim (Result-cases (acquire_study_capacity g s now).1) [
    | inr (e, refused) ↦ rw (refused, with_capacity) ((acquire_permits s now).0 e refused)
    | inl (u, taken) ↦ rw (taken, with_capacity) ((acquire_permits s now).1 u taken)
  ]

  -- No permit of the study service leaks: after an enrolment, however it ends, as many are free as before.
  pub study_enrol_handler_permits :
      (decode : Bytes → Option Bytes) (s : StudyGate g) (now : ℕ) (app : AppState)
      (request : StudyEnrolRequest)
      → (study_enrol_handler from_slice post g decode s now app request).0.study_concurrency
        ≡ s.study_concurrency
  unfolding study_enrol_handler
  study_enrol_handler_permits decode s now app request =
      elim (Bool-cases (is_valid_enrolment decode request)) [
        | inr invalid ↦ rw (invalid, study_enrol_handler) refl
        | inl valid ↦ rw (valid, study_enrol_handler) (with_capacity_permits s now app _)
      ]
