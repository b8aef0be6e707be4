-- ===== src/Attestation/Signature.antt =====
-- src/attestation/handler.rs: `verify_wallet_signature`. A text is its UTF-8 bytes. A slice that
-- cuts a character panics: `panicked` is that end of the call, and so is a clock before the epoch.
pub mod Laws
use executor_node.Prelude.{
  ℕ, ◌+◌, ◌-◌, ◌*◌, Bool, true, false, not, ◌&&◌, ◌||◌, Option, none, some, List, [], ◌∷◌, ◌++◌,
  Bytes, bytes, Bytes_eq, ◌==◌, ltb, leb, nat_eq, if◌then◌else◌, Result, ok, err, length, and_then,
}
use executor_node.Text.{parse_u64, split, is_continuation, starts_inside}
use executor_node.Error.{AppError, Message, forbidden, text}
use executor_node.Validation.Request.{is_digit}
use executor_node.Validation.Authorization.{Wallets}

abbrev pub attest_message_max_age_secs : ℕ
attest_message_max_age_secs = 60

abbrev pub attest_forward_skew_secs : ℕ
attest_forward_skew_secs = 30

pub data Stop : Type 0 where
  refused : AppError → Stop
  panicked : Stop

abbrev pub hex_value : ℕ → Option ℕ
hex_value c =
    if is_digit c
    then some (c - 48)
    else if leb 97 c && leb c 102
    then some (c - 87)
    else if leb 65 c && leb c 70
    then some (c - 55)
    else none

-- `u8::from_str_radix(.., 16)` of two bytes, which takes a sign before a digit.
unfoldable pub from_str_radix : ℕ → ℕ → Option ℕ
from_str_radix high low =
    if nat_eq high 43
    then hex_value low
    else and_then (hex_value high) (λ h. and_then (hex_value low) (λ l. some (16 * h + l)))

-- The pairs from the first to the last, up to the first that fails.
unfoldable pub decode_hex : Bytes → Result Stop Bytes
unfolding from_str_radix
decode_hex [] = ok []
decode_hex (a ∷ []) = err panicked
decode_hex (a ∷ b ∷ rest) =
    let more = decode_hex rest in
    if is_continuation a || starts_inside rest then err panicked else elim (from_str_radix a b) [
      | none ↦ err (refused (forbidden (text "Invalid signature hex encoding")))
      | some byte ↦ elim more [ err e ↦ err e | ok decoded ↦ ok (byte ∷ decoded) ]
    ]

abbrev pub refuse : {A : Type 0} → Message → Result Stop A
refuse m = err (refused (forbidden m))

unfoldable pub check_window : ℕ → ℕ → Result Stop (Unit {0})
check_window msg_timestamp now =
    if ltb now msg_timestamp && ltb attest_forward_skew_secs (msg_timestamp - now)
    then refuse (text "Attestation message timestamp too far in future")
    else if ltb msg_timestamp now && ltb attest_message_max_age_secs (now - msg_timestamp)
    then refuse (text "Attestation message has expired")
    else ok tt

module _ (wallets : Wallets) where
  -- The part that reads the signature. `Signature::try_from` takes 64 bytes, which these are.
  unfoldable pub check_hex : Bytes → Bytes → Bytes → Result Stop (Unit {0})
  unfolding decode_hex
  check_hex wallet signature_hex message =
      if not (nat_eq (length signature_hex) 128)
      then refuse (text "Invalid signature hex length")
      else elim (decode_hex signature_hex) [
        | err e ↦ err e
        | ok sig ↦
            if not (wallets.verify sig wallet message)
            then refuse (text "Wallet signature verification failed")
            else ok tt
      ]

  -- The part that reads the time stamp.
  unfoldable pub check_time : Option ℕ → Bytes → Bytes → Bytes → Bytes → Result Stop (Unit {0})
  unfolding parse_u64 check_window check_hex
  check_time clock wallet signature_hex message stamp = elim (parse_u64 stamp) [
    | none ↦ refuse (text "Invalid timestamp in message")
    | some msg_timestamp ↦ elim clock [
      | none ↦ err panicked
      | some now ↦ elim (check_window msg_timestamp now) [
        | err e ↦ err e
        | ok _ ↦ check_hex wallet signature_hex message
      ]
    ]
  ]

  unfoldable pub check_parts :
      Option ℕ → Bytes → Bytes → Bytes → List Bytes → Result Stop (Unit {0})
  unfolding check_time
  check_parts clock wallet signature_hex message (domain ∷ name ∷ stamp ∷ []) =
      if not (domain == bytes "Entros-ATTEST")
      then refuse (text "Invalid attestation message format")
      else if not (name == wallets.to_string wallet)
      then refuse (text "Message wallet does not match request")
      else check_time clock wallet signature_hex message stamp
  check_parts clock wallet signature_hex message _ =
      refuse (text "Invalid attestation message format")

  unfoldable pub verify_wallet_signature : Option ℕ → Bytes → Bytes → Bytes → Result Stop (Unit {0})
  unfolding split check_parts
  verify_wallet_signature clock wallet signature_hex message =
      check_parts clock wallet signature_hex message (split 58 message)
