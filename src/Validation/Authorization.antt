-- ===== src/Validation/Authorization.antt =====
-- src/validation/authorization.rs: the wallet's signature over a request. The hash, the textual
-- form of a wallet and of a number, and the signature check are parameters.
pub mod Laws
use executor_node.Prelude.{
  ℕ, suc, ◌+◌, ◌-◌, ◌*◌, ◌/◌, ◌%◌, Bool, true, false, not, ◌&&◌, ◌||◌, Option, none, some, List, [],
  ◌∷◌, ◌++◌, Bytes, bytes, Bytes_eq, ◌==◌, leb, nat_eq, if◌then◌else◌, Result, ok, err, length, all,
  is_none,
}
use executor_node.Error.{AppError, invalid_request, forbidden, text}
use executor_node.Validation.Request.{WalletAuthorization, ValidateFeaturesRequest, is_digit}
use executor_node.Validation.Digest.{request_bytes}

-- The code that is not the repository's.
pub record Wallets : Type 0 where
  -- `solana_sdk::hash::hash`
  pub hash : Bytes → Bytes
  -- `Pubkey::from_str` and `to_string`
  pub from_str : Bytes → Option Bytes
  pub to_string : Bytes → Bytes
  -- `Signature::verify`: the signature, the key and the message
  pub verify : Bytes → Bytes → Bytes → Bool
  -- `Display` of a number
  pub decimal : ℕ → Bytes

abbrev pub hex_nibble : ℕ → ℕ
hex_nibble value = if leb value 57 then value - 48 else value - 97 + 10

abbrev pub hex_digit : ℕ → ℕ
hex_digit n = if leb n 9 then 48 + n else 87 + n

unfoldable pub lower_hex : Bytes → Bytes
lower_hex [] = []
lower_hex (byte ∷ rest) = hex_digit (byte / 16) ∷ hex_digit (byte % 16) ∷ lower_hex rest

-- `chunks_exact(2)`
unfoldable pub decode_pairs : Bytes → Bytes
decode_pairs [] = []
decode_pairs (high ∷ []) = []
decode_pairs (high ∷ low ∷ rest) = (hex_nibble high * 16 + hex_nibble low) ∷ decode_pairs rest

abbrev pub is_lower_hex : ℕ → Bool
is_lower_hex byte = is_digit byte || (leb 97 byte && leb byte 102)

unfoldable pub decode_lower_signature : Bytes → Result AppError Bytes
unfolding decode_pairs
decode_lower_signature value =
    if not (nat_eq (length value) 128) || not (all is_lower_hex value)
    then err (
        invalid_request
          (text "Wallet authorization signature must be 128 lowercase hex characters"))
    else ok (decode_pairs value)

module _ (wallets : Wallets) where
  unfoldable pub request_digest : ValidateFeaturesRequest → Result AppError Bytes
  unfolding request_bytes
  request_digest request = elim (request_bytes request) [
    | err e ↦ err e
    | ok b ↦ ok (wallets.hash b)
  ]

  unfoldable pub authorization_message : Bytes → Bytes → ℕ → Bytes → Bytes
  unfolding lower_hex
  authorization_message wallet nonce projection_version digest =
      bytes "Entros-Validate-v1"
      ++ (10 ∷ bytes "wallet:")
      ++ wallets.to_string wallet
      ++ (10 ∷ bytes "nonce:")
      ++ lower_hex nonce
      ++ (10 ∷ bytes "projection:")
      ++ wallets.decimal projection_version
      ++ (10 ∷ bytes "request_sha256:")
      ++ lower_hex digest

  -- The last check: the wallet's own name in the request, and its signature.
  unfoldable pub check_signature :
      ValidateFeaturesRequest → Bytes → ℕ → Bytes → Bytes → Bytes → Result AppError (Option Bytes)
  unfolding authorization_message
  check_signature request wallet projection_version nonce signature digest =
      if not (request.wallet_id == wallets.to_string wallet)
        || not (
            wallets.verify signature wallet
              (authorization_message wallet nonce projection_version digest))
      then err (forbidden (text "Wallet authorization failed"))
      else ok (some nonce)

  unfoldable pub check_authorization :
      ValidateFeaturesRequest → Bytes → ℕ → WalletAuthorization → Result AppError (Option Bytes)
  unfolding decode_lower_signature request_digest check_signature
  check_authorization request wallet projection_version authorization =
      if not (nat_eq (length authorization.nonce) 32)
      then err (invalid_request (text "Wallet authorization nonce must be 32 bytes"))
      else elim (decode_lower_signature authorization.signature_hex) [
        | err e ↦ err e
        | ok signature ↦ elim (request_digest request) [
          | err e ↦ err e
          | ok digest ↦
              check_signature request wallet projection_version authorization.nonce signature digest
        ]
      ]

  unfoldable pub verify_wallet_authorization :
      ValidateFeaturesRequest → Bytes → ℕ → Result AppError (Option Bytes)
  unfolding check_authorization
  verify_wallet_authorization request wallet projection_version =
      if not (nat_eq projection_version 2)
      then (if is_none request.wallet_authorization
          then ok none
          else err
              (invalid_request (text "Wallet authorization is not allowed for this projection")))
      else elim request.wallet_authorization [
        | none ↦ err (invalid_request (text "Projection 2 requires wallet authorization"))
        | some authorization ↦ check_authorization request wallet projection_version authorization
      ]
