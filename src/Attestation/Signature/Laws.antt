-- ===== src/Attestation/Signature/Laws.antt =====
-- What a signed attestation message of src/attestation/handler.rs shows.
use executor_node.Prelude.{
  ℕ, ◌+◌, ◌/◌, ◌%◌, ◌≤◌, ◌≡◌, refl, sym, ap, ◌∙◌, inl, inr, true, Option, some, List, [], ◌∷◌,
  Bytes, bytes, Bytes_eq, bytes_eq_iff, ◌==◌, All, arith, nat_eq, nat_eq_iff, ok, length,
  Bool-cases, Option-cases, Result-cases,
}
use executor_node.Attestation.Sas.Layout.{IsByte}
use executor_node.Validation.Authorization.{Wallets, lower_hex, hex_digit}
use executor_node.Text.{parse_u64, split}
use executor_node.Text.Laws.{joined, joined-split}
use executor_node.Attestation.Signature.{
  from_str_radix, decode_hex, check_window, check_hex, check_time, check_parts,
  verify_wallet_signature,
}

hex_pair :
    (byte : ℕ)
    → IsByte byte
    → from_str_radix (hex_digit (byte / 16)) (hex_digit (byte % 16)) ≡ some byte
unfolding from_str_radix
hex_pair byte h = ground arith

-- The end of an even text is not cut.
decode_hex-lower_hex : (b : Bytes) → All IsByte b → decode_hex (lower_hex b) ≡ ok b
unfolding decode_hex lower_hex
decode_hex-lower_hex [] h = refl
decode_hex-lower_hex (byte ∷ []) (p, h) = rw (hex_pair byte p) (ground arith)
decode_hex-lower_hex (byte ∷ next ∷ b) (p, h) =
    rw (hex_pair byte p, decode_hex-lower_hex (next ∷ b) h) (ground arith)

-- A signature that the handler takes: the message names the wallet and a time at most 60 seconds before the clock and at most 30 seconds after it, and the wallet has signed the message.
pub record IsOwned (wallets : Wallets) (clock : Option ℕ) (wallet signature_hex message : Bytes)
    : Type 0 where
  pub stamp : Bytes
  pub msg_timestamp : ℕ
  pub now : ℕ
  pub sig : Bytes
  pub layout : message ≡ joined 58 (bytes "Entros-ATTEST" ∷ wallets.to_string wallet ∷ stamp ∷ [])
  pub dated : parse_u64 stamp ≡ some msg_timestamp
  pub read : clock ≡ some now
  pub not_old : now ≤ msg_timestamp + 60
  pub not_early : msg_timestamp ≤ now + 30
  pub long : length signature_hex ≡ 128
  pub decoded : decode_hex signature_hex ≡ ok sig
  pub verified : wallets.verify sig wallet message ≡ true

check_window-ok : (t now : ℕ) → check_window t now ≡ ok tt → (now ≤ t + 60) × (t ≤ now + 30)
unfolding check_window
check_window-ok t now h = ground arith

module _ (wallets : Wallets) where
  check_hex-ok :
      (wallet hex message : Bytes)
      → check_hex wallets wallet hex message ≡ ok tt
      → (length hex ≡ 128)
        × ((sig : Bytes) × (decode_hex hex ≡ ok sig) × (wallets.verify sig wallet message ≡ true))
  unfolding check_hex
  check_hex-ok wallet hex message h = elim (Bool-cases (nat_eq (length hex) 128)) [
    | inr short ↦ absurd (ground (arith, rw (short, check_hex) at h))
    | inl long ↦ elim (Result-cases (decode_hex hex)) [
      | inr (e, garbled) ↦ absurd (ground (arith, rw (long, garbled, check_hex) at h))
      | inl (sig, decoded) ↦ elim (Bool-cases (wallets.verify sig wallet message)) [
        | inr forged ↦ absurd (ground (arith, rw (long, decoded, forged, check_hex) at h))
        | inl verified ↦ ((nat_eq_iff (length hex) 128).0 long, (sig, decoded, verified))
      ]
    ]
  ]

  check_time-ok :
      (clock : Option ℕ) (wallet hex message stamp : Bytes)
      → message ≡ joined 58 (bytes "Entros-ATTEST" ∷ wallets.to_string wallet ∷ stamp ∷ [])
      → check_time wallets clock wallet hex message stamp ≡ ok tt
      → IsOwned wallets clock wallet hex message
  unfolding check_time
  check_time-ok clock wallet hex message stamp layout h = elim (Option-cases (parse_u64 stamp)) [
    | inl undated ↦ absurd (ground (arith, rw (undated, check_time) at h))
    | inr (t, dated) ↦ elim (Option-cases clock) [
      | inl early ↦ absurd (ground (arith, rw (dated, early, check_time) at h))
      | inr (now, read) ↦ elim (Result-cases (check_window t now)) [
        | inr (e, outside) ↦ absurd (ground (arith, rw (dated, read, outside, check_time) at h))
        | inl (u, inside) ↦
            let (not_old, not_early) = check_window-ok t now inside in
            let (long, (sig, decoded, verified)) =
              check_hex-ok wallet hex message (rw (dated, read, inside, check_time) at h) in
            record {
              stamp = stamp;
              msg_timestamp = t;
              now = now;
              sig = sig;
              layout = layout;
              dated = dated;
              read = read;
              not_old = not_old;
              not_early = not_early;
              long = long;
              decoded = decoded;
              verified = verified;
            }
      ]
    ]
  ]

  check_parts-ok :
      (clock : Option ℕ) (wallet hex message : Bytes) (parts : List Bytes)
      → message ≡ joined 58 parts
      → check_parts wallets clock wallet hex message parts ≡ ok tt
      → IsOwned wallets clock wallet hex message
  unfolding check_parts
  check_parts-ok clock wallet hex message [] layout h = absurd (ground arith)
  check_parts-ok clock wallet hex message (a ∷ []) layout h = absurd (ground arith)
  check_parts-ok clock wallet hex message (a ∷ b ∷ []) layout h = absurd (ground arith)
  check_parts-ok clock wallet hex message (a ∷ b ∷ c ∷ d ∷ rest) layout h = absurd (ground arith)
  check_parts-ok clock wallet hex message (a ∷ b ∷ c ∷ []) layout h =
      elim (Bool-cases (a == bytes "Entros-ATTEST")) [
        | inr other ↦ absurd (ground (arith, rw (other, check_parts) at h))
        | inl domain ↦ elim (Bool-cases (b == wallets.to_string wallet)) [
          | inr stranger ↦ absurd (ground (arith, rw (domain, stranger, check_parts) at h))
          | inl name ↦
              let a' = (bytes_eq_iff a (bytes "Entros-ATTEST")).0 domain in
              let b' = (bytes_eq_iff b (wallets.to_string wallet)).0 name in
              check_time-ok clock wallet hex message c
                (layout
                  ∙ ap (λ x. joined 58 (x ∷ b ∷ c ∷ [])) a'
                  ∙ ap (λ x. joined 58 (bytes "Entros-ATTEST" ∷ x ∷ c ∷ [])) b')
                (rw (domain, name, check_parts) at h)
        ]
      ]

  -- A proof of ownership that is taken shows what it should: the message is the domain, the wallet's own name and a time, joined by colons; the time is at most 60 seconds before the clock and at most 30 seconds after it; and the signature decodes from 128 bytes of text and verifies for that wallet and that message.
  pub verify_wallet_signature-IsOwned :
      (clock : Option ℕ) (wallet signature_hex message : Bytes)
      → verify_wallet_signature wallets clock wallet signature_hex message ≡ ok tt
      → IsOwned wallets clock wallet signature_hex message
  unfolding verify_wallet_signature
  verify_wallet_signature-IsOwned clock wallet signature_hex message h =
      check_parts-ok clock wallet signature_hex message (split 58 message)
        (sym (joined-split 58 message)) h
