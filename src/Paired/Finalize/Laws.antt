-- ===== src/Paired/Finalize/Laws.antt =====
-- What src/paired/finalize.rs checks of a request, and which reasons it passes on.
use executor_node.Prelude.{◌≡◌, inl, inr, Option, some, Bytes, arith, ok, nat_eq, Bool-cases}
use executor_node.Paired.Finalize.{
  ValidateSessionRequest, within_bounds, check_session, paired_projection_version,
}

pub check_session-wallet :
    (from_str : Bytes → Option Bytes) (r : ValidateSessionRequest) (w w' : Bytes)
    → from_str r.wallet_id ≡ some w
    → check_session from_str r ≡ ok w'
    → w' ≡ w
unfolding check_session
check_session-wallet from_str r w w' parsed h =
    elim (Bool-cases (nat_eq r.projection_version paired_projection_version)) [
      | inr other ↦ absurd (ground (arith, rw (other, check_session) at h))
      | inl version ↦ elim (Bool-cases (within_bounds r)) [
        | inr large ↦ absurd (ground (arith, rw (version, parsed, large, check_session) at h))
        | inl fits ↦ ground (arith, rw (version, parsed, fits, check_session) at h)
      ]
    ]
