-- ===== src/Attestation/Sas.antt =====
-- src/attestation/sas.rs: the accounts that it reads, and the data that it writes. The offsets
-- fit a 64-bit `usize`, whose checked sums are written out.
pub mod Layout
pub mod Laws
pub mod Recent
pub mod Identity
use Prim.Native.String.{String}
use executor_node.Prelude.{
  ℕ, zero, suc, ◌+◌, ◌-◌, ◌*◌, min, Bool, true, false, not, ◌&&◌, Option, none, some, List, [], ◌∷◌,
  ◌++◌, Bytes, Bytes_eq, ◌==◌, ltb, leb, nat_eq, if◌then◌else◌, Result, ok, err, length, take, drop,
  get_elem?, is_some_and, ℤ, pos, ltb_ℤ, saturating_add, saturating_sub, of_bits, to_bits,
}
use executor_node.Clock.{u64_mod, u64_max}
use executor_node.Error.{Message, text, text_nat, text_nats}
use executor_node.Validation.Digest.{little_endian}
use executor_node.Validation.Intent.{from_le_bytes, identity_discriminator}

-- `slice.get(first..last)`
unfoldable pub get_range : Bytes → ℕ → ℕ → Option Bytes
get_range data_ first last =
    if leb first last && leb last (length data_)
    then some (take (last - first) (drop first data_))
    else none

abbrev pub checked_add : ℕ → ℕ → Option ℕ
checked_add a b = if ltb (a + b) u64_mod then some (a + b) else none

abbrev pub saturating_mul : ℕ → ℕ → ℕ
saturating_mul a b = min (a * b) u64_max

-- A range of four bytes has four bytes, so the conversion that follows cannot fail.
unfoldable pub read_u32_le : Bytes → ℕ → Result Message ℕ
unfolding get_range from_le_bytes
read_u32_le data_ offset = elim (checked_add offset 4) [
  | none ↦ err (text "offset overflow")
  | some last ↦ elim (get_range data_ offset last) [
    | none ↦ err (text_nat "SAS credential truncated at offset {}" offset)
    | some word ↦ ok (from_le_bytes word)
  ]
]

-- The loop over the signers that are left.
unfoldable pub read_signers : ℕ → ℕ → Bytes → Result Message (List Bytes)
unfolding get_range
read_signers zero offset data_ = ok []
read_signers (suc n) offset data_ =
    let rest = read_signers n (offset + 32) data_ in
    elim (get_range data_ offset (offset + 32)) [
      | none ↦ err (text "SAS credential signer list is truncated")
      | some key ↦ elim rest [ err e ↦ err e | ok keys ↦ ok (key ∷ keys) ]
    ]

-- From the number of signers on.
unfoldable pub check_signers : Bytes → ℕ → ℕ → Result Message (List Bytes)
unfolding read_signers
check_signers data_ signer_count offset = elim (checked_add offset 4) [
  | none ↦ err (text "SAS credential signer count overflows the buffer")
  | some start ↦
      let available = length data_ - start in
      if ltb available (saturating_mul signer_count 32)
      then err (
          text_nats "SAS credential declares {} signers but only {} bytes remain" signer_count
            available)
      else read_signers signer_count start data_
]

-- From the length of the name on.
unfoldable pub skip_name : Bytes → ℕ → Result Message (List Bytes)
unfolding read_u32_le check_signers
skip_name data_ name_len = elim (checked_add (1 + 32) (4 + name_len)) [
  | none ↦ err (text "SAS credential name length overflows the buffer")
  | some offset ↦ elim (read_u32_le data_ offset) [
    | err e ↦ err e
    | ok signer_count ↦ check_signers data_ signer_count offset
  ]
]

unfoldable pub parse_credential_authorized_signers : Bytes → Result Message (List Bytes)
unfolding read_u32_le skip_name
parse_credential_authorized_signers data_ =
    if not (is_some_and (get_elem? data_ 0) (λ b. nat_eq b 0))
    then err (text "SAS credential discriminator mismatch (not a Credential account)")
    else elim (read_u32_le data_ (1 + 32)) [
      | err e ↦ err e
      | ok name_len ↦ skip_name data_ name_len
    ]

pub record IdentityStateData : Type 0 where
  pub trust_score : ℕ
  pub last_verification_timestamp : ℤ

-- The two ranges lie inside the 62 bytes, so their conversions cannot fail.
unfoldable pub deserialize_identity_state : Bytes → Result Message IdentityStateData
unfolding from_le_bytes
deserialize_identity_state data_ =
    if ltb (length data_) 62
    then err (text_nat "IdentityState data too short: {} bytes (need >= 62)" (length data_))
    else if not (take 8 data_ == identity_discriminator)
    then err (text "IdentityState discriminator mismatch (not an IdentityState account)")
    else ok (record {
      trust_score = from_le_bytes (take 2 (drop 60 data_));
      last_verification_timestamp = of_bits (from_le_bytes (take 8 (drop 48 data_)));
    })

abbrev pub attestation_forward_skew_secs : ℤ
attestation_forward_skew_secs = pos 30

abbrev pub attestation_verification_max_age_secs : ℤ
attestation_verification_max_age_secs = pos 300

abbrev at_least_zero : ℤ → ℤ
at_least_zero z = if ltb_ℤ z (pos 0) then pos 0 else z

unfoldable pub check_attestation_freshness : ℤ → ℤ → Result String (Unit {0})
unfolding saturating_add saturating_sub
check_attestation_freshness ts now =
    if ltb_ℤ (saturating_add now attestation_forward_skew_secs) ts
    then err "future_skew"
    else if ltb_ℤ attestation_verification_max_age_secs (at_least_zero (saturating_sub now ts))
    then err "stale"
    else ok tt

-- The fields of the attestation's schema. The length of the mode is cast to 32 bits.
unfoldable pub serialize_attestation_data : ℕ → ℤ → Bytes → Bytes
unfolding little_endian
serialize_attestation_data trust_score verified_at mode =
    (1 ∷ [])
    ++ little_endian 2 trust_score
    ++ little_endian 8 (to_bits verified_at)
    ++ little_endian 4 (length mode)
    ++ mode
