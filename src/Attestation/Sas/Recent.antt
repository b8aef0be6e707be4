-- ===== src/Attestation/Sas/Recent.antt =====
-- When src/attestation/sas.rs takes a verification for recent.
use executor_node.Prelude.{
  ◌≡◌, ◌↔◌, arith, ok, ℤ, pos, negsuc, IsI64, ◌≤ℤ◌, ◌+ℤ◌, saturating_add, saturating_sub,
}
use executor_node.Attestation.Sas.{check_attestation_freshness}

-- A verification is recent exactly if it is at most 300 seconds before the clock and at most 30 seconds after it, for all times that fit 64 bits: that the sums stop at the ends of the type changes no answer.
pub check_attestation_freshness_iff :
    (ts now : ℤ)
    → IsI64 ts
    → IsI64 now
    → (check_attestation_freshness ts now ≡ ok tt)
      ↔ ((ts ≤ℤ now +ℤ pos 30) × (now ≤ℤ ts +ℤ pos 300))
unfolding check_attestation_freshness saturating_add saturating_sub ◌+ℤ◌
check_attestation_freshness_iff (pos t) (pos n) h k = (λ e. ground arith, λ e. ground arith)
check_attestation_freshness_iff (pos t) (negsuc n) h k = (λ e. ground arith, λ e. ground arith)
check_attestation_freshness_iff (negsuc t) (pos n) h k = (λ e. ground arith, λ e. ground arith)
check_attestation_freshness_iff (negsuc t) (negsuc n) h k = (λ e. ground arith, λ e. ground arith)
