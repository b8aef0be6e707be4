-- ===== src/Attestation/Sas/Identity.antt =====
-- The identity account of src/attestation/sas.rs, and the attestation that is written from it.
use mathlib.Core.List.{append_assoc}
use executor_node.Prelude.{
  ℕ, ◌<◌, ◌≡◌, refl, sym, ap, ◌∙◌, false, ◌++◌, Bytes, Bytes_eq, bytes_eq, arith, ltb, ok, length,
  take, drop, length-append, take-append, drop-append, ℤ, IsI64, to_bits, of_bits-to_bits,
}
use executor_node.Validation.Digest.{little_endian}
use executor_node.Validation.Intent.{identity_discriminator}
use executor_node.Attestation.Sas.{deserialize_identity_state}
use executor_node.Attestation.Sas.Layout.{
  identity, length-little_endian, from_le_bytes-little_endian2, from_le_bytes-little_endian8,
}

-- A part that stands between two others.
part : (p m r : Bytes) (a n : ℕ) → length p ≡ a → length m ≡ n → take n (drop a (p ++ (m ++ r))) ≡ m
part p m r a n h k = rw (← h, drop-append p (m ++ r), ← k) (take-append m r)

-- A word of 64 bits.
to_bits-lt : (z : ℤ) → IsI64 z → to_bits z < 18446744073709551616
to_bits-lt z h = ground arith

-- An identity account is read as its fields say: of an account with the discriminator and with fields of the documented sizes, the parser returns the time of the last verification, signed, and the trust score, whatever the other fields and the rest are.
pub deserialize_identity_state-identity :
    (owner creation count trailing : Bytes) (verified : ℤ) (trust_score : ℕ)
    → length owner ≡ 32
    → length creation ≡ 8
    → length count ≡ 4
    → IsI64 verified
    → trust_score < 65536
    → deserialize_identity_state (
        identity identity_discriminator owner creation
          (little_endian 8 (to_bits verified))
          count
          (little_endian 2 trust_score)
          trailing)
      ≡ ok (record { trust_score = trust_score; last_verification_timestamp = verified })
unfolding deserialize_identity_state bytes_eq
deserialize_identity_state-identity owner creation count trailing verified trust_score ho hc hn hv
      ht =
    let stamp = little_endian 8 (to_bits verified) in
    let score = little_endian 2 trust_score in
    let p = identity_discriminator ++ (owner ++ creation) in
    let q = p ++ (stamp ++ count) in
    let d = identity identity_discriminator owner creation stamp count score trailing in
    let first : d ≡ p ++ (stamp ++ (count ++ (score ++ trailing))) =
      ap (λ x. identity_discriminator ++ x)
        (sym (append_assoc owner creation (stamp ++ (count ++ (score ++ trailing)))))
      ∙ sym (append_assoc identity_discriminator (owner ++ creation) _) in
    let second : d ≡ q ++ (score ++ trailing) =
      first
      ∙ ap (λ x. p ++ x) (sym (append_assoc stamp count (score ++ trailing)))
      ∙ sym (append_assoc p (stamp ++ count) (score ++ trailing)) in
    let head : length p ≡ 48 = omega (arith, length-append owner creation) in
    let long : length q ≡ 60 = omega (
      arith,
      length-append p (stamp ++ count),
      length-append stamp count,
      length-little_endian 8 (to_bits verified),
    ) in
    let stamp_read : take 8 (drop 48 d) ≡ stamp =
      ap (λ x. take 8 (drop 48 x)) first
      ∙ part p stamp _ 48 8 head (length-little_endian 8 (to_bits verified)) in
    let score_read : take 2 (drop 60 d) ≡ score =
      ap (λ x. take 2 (drop 60 x)) second
      ∙ part q score trailing 60 2 long (length-little_endian 2 trust_score) in
    let enough : ltb (length d) 62 ≡ false = ground (
      arith,
      ap (λ x. length x) second,
      length-append q (score ++ trailing),
      length-append score trailing,
      length-little_endian 2 trust_score,
    ) in
    rw
      (
        enough,
        stamp_read,
        score_read,
        from_le_bytes-little_endian2 trust_score ht,
        from_le_bytes-little_endian8 (to_bits verified) (to_bits-lt verified hv),
        of_bits-to_bits verified hv,
        deserialize_identity_state,
      )
      refl
