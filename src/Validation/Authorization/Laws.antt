-- ===== src/Validation/Authorization/Laws.antt =====
-- What a wallet's signature of src/validation/authorization.rs must be.
use executor_node.Prelude.{
  ℕ, ◌+◌, ◌<◌, ◌≡◌, refl, ◌∙◌, sym, ◌↔◌, true, false, none, some, [], ◌∷◌, Bytes, Bytes_eq,
  bytes_eq_iff, ok, length, all, All, arith, Option-cases, Bool-cases, inl, inr, nat_eq, nat_eq_iff,
  Result-cases,
}
use executor_node.Validation.Request.{WalletAuthorization, ValidateFeaturesRequest}
use executor_node.Validation.Digest.{request_bytes}
use executor_node.Validation.Authorization.{
  Wallets, lower_hex, decode_pairs, is_lower_hex, decode_lower_signature, request_digest,
  authorization_message, check_signature, check_authorization, verify_wallet_authorization,
}

length-lower_hex : (b : Bytes) → length (lower_hex b) ≡ length b + length b
unfolding lower_hex
length-lower_hex [] = refl
length-lower_hex (x ∷ xs) = ground (arith, length-lower_hex xs)

lower_hex-IsLower : (b : Bytes) → All (λ x. x < 256) b → all is_lower_hex (lower_hex b) ≡ true
unfolding lower_hex
lower_hex-IsLower [] h = refl
lower_hex-IsLower (x ∷ xs) h = ground (arith, lower_hex-IsLower xs h.1)

decode_pairs-lower_hex : (b : Bytes) → All (λ x. x < 256) b → decode_pairs (lower_hex b) ≡ b
unfolding lower_hex decode_pairs
decode_pairs-lower_hex [] h = refl
decode_pairs-lower_hex (x ∷ xs) h = ground (arith, decode_pairs-lower_hex xs h.1)

-- The lowercase hexadecimal text of any 64 bytes decodes to these bytes.
pub decode_lower_signature-lower_hex :
    (signature : Bytes)
    → length signature ≡ 64
    → All (λ x. x < 256) signature
    → decode_lower_signature (lower_hex signature) ≡ ok signature
unfolding decode_lower_signature
decode_lower_signature-lower_hex signature l h =
    let size : length (lower_hex signature) ≡ 128 = omega (arith, length-lower_hex signature) in
    rw (size, lower_hex-IsLower signature h, decode_pairs-lower_hex signature h) refl

-- What a wallet signed: the request's own name of it, the bytes that the signature covers, and the
-- signature of a message that names the wallet, the nonce and their digest.
pub record IsSigned (wallets : Wallets) (request : ValidateFeaturesRequest) (wallet : Bytes)
    (version : ℕ) (nonce : Bytes) : Type 0 where
  pub authorization : WalletAuthorization
  pub signature : Bytes
  pub signed : Bytes
  pub given : request.wallet_authorization ≡ some authorization
  pub nonce_given : authorization.nonce ≡ nonce
  pub nonce_size : length nonce ≡ 32
  pub named : request.wallet_id ≡ wallets.to_string wallet
  pub decoded : decode_lower_signature authorization.signature_hex ≡ ok signature
  pub covers : request_bytes request ≡ ok signed
  pub verified :
      wallets.verify signature wallet
        (authorization_message wallets wallet nonce version (wallets.hash signed))
      ≡ true

module _ (wallets : Wallets) where
  check_authorization_lem :
      (request : ValidateFeaturesRequest) (wallet : Bytes) (version : ℕ) (nonce : Bytes)
      (a : WalletAuthorization)
      → request.wallet_authorization ≡ some a
      → check_authorization wallets request wallet version a ≡ ok (some nonce)
      → IsSigned wallets request wallet version nonce
  unfolding check_authorization request_digest check_signature
  check_authorization_lem request wallet version nonce a g h =
      elim (Result-cases (decode_lower_signature a.signature_hex)) [
        | inr (e, bad) ↦ absurd (ground (arith, rw bad at h))
        | inl (signature, decoded) ↦ elim (Result-cases (request_bytes request)) [
          | inr (e, bad) ↦ absurd (ground (arith, rw (decoded, bad) at h))
          | inl (signed, covers) ↦
              let h' = rw (decoded, covers) at h in
              let nonce_given : a.nonce ≡ nonce = ground (arith, h') in
              record {
                authorization = a;
                signature = signature;
                signed = signed;
                given = g;
                nonce_given = nonce_given;
                nonce_size = ground (arith, h');
                named =
                    ground (arith, h', bytes_eq_iff request.wallet_id (wallets.to_string wallet));
                decoded = decoded;
                covers = covers;
                verified = rw (← nonce_given) (ground (arith, h'));
              }
        ]
      ]

  check_authorization_some :
      (request : ValidateFeaturesRequest) (wallet : Bytes) (version : ℕ) (a : WalletAuthorization)
      → check_authorization wallets request wallet version a ≡ ok none
      → ⊥
  unfolding check_authorization request_digest check_signature
  check_authorization_some request wallet version a h =
      elim (Result-cases (decode_lower_signature a.signature_hex)) [
        | inr (e, bad) ↦ ground (arith, rw bad at h)
        | inl (signature, decoded) ↦ elim (Result-cases (request_bytes request)) [
          | inr (e, bad) ↦ ground (arith, rw (decoded, bad) at h)
          | inl (signed, covers) ↦ ground (arith, rw (decoded, covers) at h)
        ]
      ]

  -- A request passes without a nonce exactly when its projection is not 2 and it has no authorization. When it passes with a nonce, its projection is 2, the nonce is the authorization's and has 32 bytes, the request names the wallet, and the wallet's signature is good on a message of the wallet, the nonce and the hash of the request's signed bytes.
  pub verify_wallet_authorization_lem :
      (request : ValidateFeaturesRequest) (wallet : Bytes) (version : ℕ)
      → ((verify_wallet_authorization wallets request wallet version ≡ ok none)
          ↔ ((nat_eq version 2 ≡ false) × (request.wallet_authorization ≡ none)))
        × ((nonce : Bytes)
            → verify_wallet_authorization wallets request wallet version ≡ ok (some nonce)
            → (version ≡ 2) × IsSigned wallets request wallet version nonce)
  unfolding verify_wallet_authorization
  verify_wallet_authorization_lem request wallet version =
      elim (Option-cases request.wallet_authorization) [
        | inl absent ↦ rw (absent, verify_wallet_authorization) (ground arith)
        | inr (a, given) ↦ elim (Bool-cases (nat_eq version 2)) [
          | inr other ↦ rw (given, other, verify_wallet_authorization) (ground arith)
          | inl two ↦
              let same : verify_wallet_authorization wallets request wallet version
                  ≡ check_authorization wallets request wallet version a =
                rw (given, two, verify_wallet_authorization) refl in
              (
                (
                  λ h. absurd (check_authorization_some request wallet version a (sym same ∙ h)),
                  λ h. absurd (ground (arith, two, h)),
                ),
                λ nonce h. (
                  (nat_eq_iff version 2).0 two,
                  check_authorization_lem request wallet version nonce a given (sym same ∙ h),
                ),
              )
        ]
      ]
