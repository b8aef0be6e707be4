-- ===== src/Attestation/Tests.antt =====
-- Runs of src/attestation, and the theorems at concrete inputs.
use executor_node.Prelude.{
  ℕ, ◌+◌, ◌≡◌, ◌≢◌, refl, ◌↔◌, true, none, some, [], ◌∷◌, Bytes, bytes, bytes_eq, Bytes_eq, ok, err,
  replicate, pos, saturating_add, saturating_sub, ◌+ℤ◌, ◌-ℤ◌, ◌≤ℤ◌, arith,
}
use executor_node.Validation.Digest.{little_endian}
use executor_node.Validation.Intent.{from_le_bytes, identity_discriminator}
use executor_node.Validation.Authorization.{Wallets}
use executor_node.Challenge.Registry.{
  validate_and_consume, consume, consume_wallet, take_nonce, is_stale,
}
use executor_node.Map.{get, insert, remove}
use executor_node.Attestation.Sas.{
  parse_credential_authorized_signers, read_u32_le, read_signers, check_signers, skip_name,
  get_range, deserialize_identity_state, check_attestation_freshness,
}
use executor_node.Attestation.Sas.Layout.{credential, identity}
use executor_node.Attestation.Sas.Laws.{IsCredential, parse_credential_authorized_signers_iff}
use executor_node.Attestation.Sas.Recent.{check_attestation_freshness_iff}
use executor_node.Attestation.Sas.Identity.{deserialize_identity_state-identity}
use executor_node.Attestation.Issue.{SasAttestor, issue_attestation, issue_identity, issue_recent}
use executor_node.Attestation.Issue.Laws.{IsIssued, issue_attestation-IsIssued}
use executor_node.Attestation.Signature.{
  panicked, from_str_radix, decode_hex, check_window, check_hex, check_time, check_parts,
  verify_wallet_signature,
}
use executor_node.Attestation.Signature.Laws.{IsOwned, verify_wallet_signature-IsOwned}
use executor_node.Attestation.Handler.{
  AttestRequest, AttestResponse, respond, consume_challenge, attest_wallet, attest_owned,
  attest_handler,
}
use executor_node.Attestation.Handler.Laws.{
  IsAdmitted, attest_handler-IsAdmitted, attest_handler_once,
}
use executor_node.Text.{split, parse_u64, parse_digits}
use executor_node.State.Sample.{state, sample_nonce}

abbrev key : Bytes
key = replicate 32 7

-- A credential named "a" with one signer, and a byte behind it.
abbrev account : Bytes
account = credential (replicate 32 1) (bytes "a") (key ∷ []) (9 ∷ [])

signers_read : parse_credential_authorized_signers account ≡ ok (key ∷ [])
unfolding parse_credential_authorized_signers read_u32_le skip_name check_signers read_signers
    get_range little_endian from_le_bytes
signers_read = refl

parse_credential_authorized_signers_iff_example :
    (parse_credential_authorized_signers (0 ∷ replicate 40 0) ≡ ok [])
    ↔ IsCredential (0 ∷ replicate 40 0) []
parse_credential_authorized_signers_iff_example =
    parse_credential_authorized_signers_iff (0 ∷ replicate 40 0) [] (ground arith)

recent_at_the_edge :
    (check_attestation_freshness (pos 1000) (pos 1300) ≡ ok tt)
    ↔ ((pos 1000 ≤ℤ pos 1300 +ℤ pos 30) × (pos 1300 ≤ℤ pos 1000 +ℤ pos 300))
recent_at_the_edge =
    check_attestation_freshness_iff (pos 1000) (pos 1300) (omega arith) (omega arith)

-- A slice inside a character panics: the two bytes of one character on an odd place.
cut : decode_hex (48 ∷ 195 ∷ 169 ∷ 48 ∷ []) ≡ err panicked
unfolding decode_hex
cut = refl

-- A sign is taken for a digit.
signed : decode_hex (bytes "+f") ≡ ok (15 ∷ [])
unfolding decode_hex from_str_radix
signed = refl

abbrev verified_at : ℕ
verified_at = 1700000000

abbrev identity_account : Bytes
identity_account =
    identity identity_discriminator (replicate 32 5) (replicate 8 0) (little_endian 8 verified_at)
      (replicate 4 0) (little_endian 2 900) []

identity_read :
    deserialize_identity_state identity_account
    ≡ ok (record { trust_score = 900; last_verification_timestamp = pos verified_at })
identity_read =
    deserialize_identity_state-identity (replicate 32 5) (replicate 8 0) (replicate 4 0) []
      (pos verified_at) 900 refl refl refl (omega arith) (omega arith)

abbrev attestor : SasAttestor
attestor = record {
  credential_pda = 1 ∷ [];
  schema_pda = 2 ∷ [];
  ttl_days = 30;
  client = record {
    programs = record {
      find_program_address = λ seeds program. (program, 255);
      verifier_program = 10 ∷ [];
      anchor_program = 11 ∷ [];
      registry_program = 12 ∷ [];
      attestation_program_id = 13 ∷ [];
      system_program_id = 14 ∷ [];
    };
    get_account_data = λ address. ok (some identity_account);
    send_attestation_tx = λ instructions. ok (bytes "sig");
    relayer_pubkey = 15 ∷ [];
  };
  authority = 16 ∷ [];
}

issued : issue_attestation attestor (some (verified_at + 5)) key ≡ ok (bytes "sig")
unfolding issue_attestation issue_identity issue_recent deserialize_identity_state
    check_attestation_freshness saturating_add saturating_sub ◌+ℤ◌ ◌-ℤ◌ from_le_bytes little_endian
    bytes_eq
issued = refl

issue_attestation-IsIssued_example : IsIssued attestor (some (verified_at + 5)) key (bytes "sig")
issue_attestation-IsIssued_example =
    issue_attestation-IsIssued attestor (some (verified_at + 5)) key (bytes "sig") issued

abbrev wallets : Wallets
wallets = record {
  hash = λ b. b;
  from_str = λ t. some key;
  to_string = λ w. bytes "me";
  verify = λ signature wallet message. true;
  decimal = λ n. [];
}

abbrev message : Bytes
message = bytes "Entros-ATTEST:me:1700000001"

abbrev hex : Bytes
hex = replicate 128 48

owned : verify_wallet_signature wallets (some (verified_at + 5)) key hex message ≡ ok tt
unfolding verify_wallet_signature split check_parts check_time check_window check_hex parse_u64
    parse_digits decode_hex from_str_radix bytes_eq
owned = refl

verify_wallet_signature-IsOwned_example : IsOwned wallets (some (verified_at + 5)) key hex message
verify_wallet_signature-IsOwned_example =
    verify_wallet_signature-IsOwned wallets (some (verified_at + 5)) key hex message owned

abbrev request : AttestRequest
request = record {
  wallet_address = bytes "me";
  nonce = some sample_nonce;
  signature = some hex;
  message = some message;
}

abbrev attested : AttestResponse
attested = record { success = true; attestation_tx = some (bytes "sig"); error = none }

answered :
    (attest_handler wallets (some attestor) (some (verified_at + 5)) state 150 request).1
    ≡ ok attested
unfolding attest_handler attest_owned attest_wallet verify_wallet_signature split check_parts
    check_time check_window check_hex parse_u64 parse_digits decode_hex from_str_radix bytes_eq
    consume_challenge validate_and_consume consume consume_wallet take_nonce is_stale get insert
    remove issue_attestation issue_identity issue_recent deserialize_identity_state
    check_attestation_freshness saturating_add saturating_sub ◌+ℤ◌ ◌-ℤ◌ from_le_bytes little_endian
    respond
answered = refl

attest_handler-IsAdmitted_example :
    IsAdmitted wallets attestor
      (some (verified_at + 5))
      state
      150
      request
      (attest_handler wallets (some attestor) (some (verified_at + 5)) state 150 request)
attest_handler-IsAdmitted_example =
    attest_handler-IsAdmitted wallets attestor (some (verified_at + 5)) state 150 request attested
      answered

attest_handler_once_example :
    (attest_handler wallets
      (some attestor)
      (some (verified_at + 6))
      (attest_handler wallets (some attestor) (some (verified_at + 5)) state 150 request).0
      160
      request).1
    ≢ ok attested
attest_handler_once_example =
    attest_handler_once wallets attestor attestor (some (verified_at + 5)) (some (verified_at + 6))
      state 150 160 request request attested attested refl refl answered
