-- ===== src/Attestation/Issue.antt =====
-- src/attestation/sas.rs: `SasAttestor::issue_attestation`. The chain is a parameter. The clock is
-- the seconds since the epoch, `none` before it.
pub mod Laws
use executor_node.Prelude.{
  ℕ, ◌+◌, ◌*◌, ◌%◌, Option, none, some, List, [], ◌∷◌, ◌++◌, Bytes, bytes, is_some, if◌then◌else◌,
  Result, ok, err, ℤ, of_bits,
}
use executor_node.Clock.{u64_mod}
use executor_node.Error.{AppError, attestation_service_unavailable}
use executor_node.Solana.Pda.{Programs, find_identity_state_pda}
use executor_node.Solana.Instructions.{Instruction}
use executor_node.Attestation.Sas.{
  IdentityStateData, deserialize_identity_state, check_attestation_freshness,
  serialize_attestation_data,
}
use executor_node.Attestation.Instructions.{build_create_attestation, build_close_attestation}

-- The calls of the client, and the addresses of its keys.
pub record Chain : Type 0 where
  pub programs : Programs
  pub get_account_data : Bytes → Result AppError (Option Bytes)
  pub send_attestation_tx : List Instruction → Result AppError Bytes
  pub relayer_pubkey : Bytes

pub record SasAttestor : Type 0 where
  pub credential_pda : Bytes
  pub schema_pda : Bytes
  pub ttl_days : ℕ
  pub client : Chain
  pub authority : Bytes

abbrev pub find_sas_attestation_pda : SasAttestor → Bytes → Bytes
find_sas_attestation_pda a nonce =
    (a.client.programs.find_program_address
      (bytes "attestation" ∷ a.credential_pda ∷ a.schema_pda ∷ nonce ∷ [])
      a.client.programs.attestation_program_id).0

abbrev pub find_event_authority_pda : Programs → Bytes
find_event_authority_pda programs =
    (programs.find_program_address (bytes "__event_authority" ∷ [])
      programs.attestation_program_id).0

-- `as i64`
abbrev pub as_i64 : ℕ → ℤ
as_i64 secs = of_bits (secs % u64_mod)

-- The expiry, with the wrap-around of a release build.
abbrev pub expiry_at : ℕ → ℕ → ℤ
expiry_at secs ttl_days = of_bits ((secs + ttl_days * 86400) % u64_mod)

-- The instructions: an attestation that exists is closed before it is created anew.
unfoldable pub attestation_instructions :
    SasAttestor → ℕ → Bytes → IdentityStateData → Option Bytes → List Instruction
unfolding build_close_attestation build_create_attestation serialize_attestation_data
attestation_instructions a secs user_wallet identity existing =
    let programs = a.client.programs in
    let attestation = find_sas_attestation_pda a user_wallet in
    let create =
      build_create_attestation programs
        (record {
          payer = a.client.relayer_pubkey;
          authority = a.authority;
          credential = a.credential_pda;
          schema = a.schema_pda;
          attestation = attestation;
        })
        user_wallet
        (serialize_attestation_data identity.trust_score (as_i64 secs) (bytes "wallet-connected"))
        (expiry_at secs a.ttl_days) in
    let close = build_close_attestation programs (record {
      payer = a.client.relayer_pubkey;
      authority = a.authority;
      credential = a.credential_pda;
      attestation = attestation;
      event_authority = find_event_authority_pda programs;
    }) in
    if is_some existing then close ∷ create ∷ [] else create ∷ []

-- From the freshness gate on.
unfoldable pub issue_recent : SasAttestor → ℕ → Bytes → IdentityStateData → Result AppError Bytes
unfolding check_attestation_freshness attestation_instructions
issue_recent a secs user_wallet identity =
    elim (check_attestation_freshness identity.last_verification_timestamp (as_i64 secs)) [
      | err reason ↦ err attestation_service_unavailable
      | ok _ ↦ elim (a.client.get_account_data (find_sas_attestation_pda a user_wallet)) [
        | err e ↦ err e
        | ok existing ↦
            a.client.send_attestation_tx
              (attestation_instructions a secs user_wallet identity existing)
      ]
    ]

unfoldable pub issue_identity : SasAttestor → Option ℕ → Bytes → Bytes → Result AppError Bytes
unfolding deserialize_identity_state issue_recent
issue_identity a clock user_wallet identity_data = elim (deserialize_identity_state identity_data) [
  | err e ↦ err attestation_service_unavailable
  | ok identity ↦ elim clock [
    | none ↦ err attestation_service_unavailable
    | some secs ↦ issue_recent a secs user_wallet identity
  ]
]

unfoldable pub issue_attestation : SasAttestor → Option ℕ → Bytes → Result AppError Bytes
unfolding issue_identity
issue_attestation a clock user_wallet =
    elim (a.client.get_account_data (find_identity_state_pda a.client.programs user_wallet).0) [
      | err e ↦ err e
      | ok none ↦ err attestation_service_unavailable
      | ok (some identity_data) ↦ issue_identity a clock user_wallet identity_data
    ]
