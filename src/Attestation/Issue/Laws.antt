-- ===== src/Attestation/Issue/Laws.antt =====
-- What `issue_attestation` of src/attestation/sas.rs has established when it sends.
use executor_node.Prelude.{
  ℕ, ◌+◌, ◌*◌, ◌%◌, ◌≡◌, refl, inl, inr, arith, true, false, Option, some, List, [], ◌∷◌, ◌++◌,
  Bytes, bytes, ok, Option-cases, Result-cases, is_some, if◌then◌else◌, to_bits, of_bits,
  to_bits-of_bits,
}
use executor_node.Clock.{u64_mod}
use executor_node.Validation.Digest.{little_endian}
use executor_node.Solana.Instructions.{Instruction, writable, readonly}
use executor_node.Attestation.Instructions.{build_create_attestation, build_close_attestation}
use executor_node.Solana.Pda.{find_identity_state_pda}
use executor_node.Attestation.Sas.{
  IdentityStateData, deserialize_identity_state, check_attestation_freshness,
  serialize_attestation_data,
}
use executor_node.Attestation.Issue.{
  SasAttestor, as_i64, expiry_at, find_sas_attestation_pda, find_event_authority_pda,
  attestation_instructions, issue_recent, issue_identity, issue_attestation,
}

-- The instructions of one transaction that attests the wallet: the old attestation is closed, if
-- there is one, and then the new one is created from the score and the clock.
pub record IsWritten (a : SasAttestor) (secs : ℕ) (wallet : Bytes) (identity : IdentityStateData)
    (existing : Option Bytes) (sent : List Instruction) : Type 0 where
  pub created : Instruction
  pub closed : Instruction
  pub order : sent ≡ (if is_some existing then closed ∷ created ∷ [] else created ∷ [])
  pub created_program : created.program_id ≡ a.client.programs.attestation_program_id
  pub created_accounts :
      created.accounts
      ≡ writable a.client.relayer_pubkey true
        ∷ readonly a.authority true
        ∷ readonly a.credential_pda false
        ∷ readonly a.schema_pda false
        ∷ writable (find_sas_attestation_pda a wallet) false
        ∷ readonly a.client.programs.system_program_id false
        ∷ []
  pub created_data :
      created.data_
      ≡ (6 ∷ wallet)
        ++ (little_endian 4 31
            ++ ((1 ∷ [])
                ++ little_endian 2 identity.trust_score
                ++ little_endian 8 (secs % u64_mod)
                ++ little_endian 4 16
                ++ bytes "wallet-connected")
            ++ little_endian 8 ((secs + a.ttl_days * 86400) % u64_mod))
  pub closed_program : closed.program_id ≡ a.client.programs.attestation_program_id
  pub closed_accounts :
      closed.accounts
      ≡ writable a.client.relayer_pubkey true
        ∷ readonly a.authority true
        ∷ readonly a.credential_pda false
        ∷ writable (find_sas_attestation_pda a wallet) false
        ∷ readonly (find_event_authority_pda a.client.programs) false
        ∷ readonly a.client.programs.system_program_id false
        ∷ readonly a.client.programs.attestation_program_id false
        ∷ []
  pub closed_data : closed.data_ ≡ 7 ∷ []

word : (n : ℕ) → to_bits (of_bits (n % u64_mod)) ≡ n % u64_mod
word n = to_bits-of_bits (n % u64_mod) (omega arith)

attestation_instructions-IsWritten :
    (a : SasAttestor) (secs : ℕ) (wallet : Bytes) (i : IdentityStateData) (existing : Option Bytes)
    → IsWritten a secs wallet i existing (attestation_instructions a secs wallet i existing)
unfolding attestation_instructions build_create_attestation build_close_attestation
    serialize_attestation_data little_endian
attestation_instructions-IsWritten a secs wallet i existing = record {
  created =
      build_create_attestation a.client.programs
        (record {
          payer = a.client.relayer_pubkey;
          authority = a.authority;
          credential = a.credential_pda;
          schema = a.schema_pda;
          attestation = find_sas_attestation_pda a wallet;
        })
        wallet (serialize_attestation_data i.trust_score (as_i64 secs) (bytes "wallet-connected"))
        (expiry_at secs a.ttl_days);
  closed = build_close_attestation a.client.programs (record {
    payer = a.client.relayer_pubkey;
    authority = a.authority;
    credential = a.credential_pda;
    attestation = find_sas_attestation_pda a wallet;
    event_authority = find_event_authority_pda a.client.programs;
  });
  order = refl;
  created_program = refl;
  created_accounts = refl;
  created_data = rw (word secs, word (secs + a.ttl_days * 86400)) refl;
  closed_program = refl;
  closed_accounts = refl;
  closed_data = refl;
}

-- An attestation that was issued: the identity account of the wallet was read and is recent, and
-- the transaction carries its trust score and the clock that judged it, and closes what was there.
pub record IsIssued (a : SasAttestor) (clock : Option ℕ) (wallet sig : Bytes) : Type 0 where
  pub account : Bytes
  pub identity : IdentityStateData
  pub existing : Option Bytes
  pub secs : ℕ
  pub found :
      a.client.get_account_data (find_identity_state_pda a.client.programs wallet).0
      ≡ ok (some account)
  pub parsed : deserialize_identity_state account ≡ ok identity
  pub read : clock ≡ some secs
  pub recent :
      check_attestation_freshness identity.last_verification_timestamp (as_i64 secs) ≡ ok tt
  pub looked : a.client.get_account_data (find_sas_attestation_pda a wallet) ≡ ok existing
  pub transaction : List Instruction
  pub written : IsWritten a secs wallet identity existing transaction
  pub sent : a.client.send_attestation_tx transaction ≡ ok sig

-- What the part from the freshness gate on establishes.
issue_recent_sent :
    (a : SasAttestor) (secs : ℕ) (wallet sig : Bytes) (i : IdentityStateData)
    → issue_recent a secs wallet i ≡ ok sig
    → (existing : Option Bytes) × (check_attestation_freshness i.last_verification_timestamp
          (as_i64 secs)
        ≡ ok tt)
      × (a.client.get_account_data (find_sas_attestation_pda a wallet) ≡ ok existing)
      × (a.client.send_attestation_tx (attestation_instructions a secs wallet i existing) ≡ ok sig)
unfolding issue_recent
issue_recent_sent a secs wallet sig i h =
    elim (Result-cases (check_attestation_freshness i.last_verification_timestamp (as_i64 secs))) [
      | inr (reason, stale) ↦ absurd (ground (arith, rw (stale, issue_recent) at h))
      | inl (u, recent) ↦
          elim (Result-cases (a.client.get_account_data (find_sas_attestation_pda a wallet))) [
            | inr (e, failed) ↦ absurd (ground (arith, rw (recent, failed, issue_recent) at h))
            | inl (existing, looked) ↦
                (existing, recent, looked, rw (recent, looked, issue_recent) at h)
          ]
    ]

-- An attestation is issued only for a wallet whose identity account on the chain parses and is recent by the clock of the call. The transaction that is sent then closes the attestation that is already there, if there is one, before it creates the new one, and what it creates carries that account's trust score, that clock and an expiry the configured days later, each in its place.
pub issue_attestation-IsIssued :
    (a : SasAttestor) (clock : Option ℕ) (wallet sig : Bytes)
    → issue_attestation a clock wallet ≡ ok sig
    → IsIssued a clock wallet sig
unfolding issue_attestation issue_identity
issue_attestation-IsIssued a clock wallet sig h =
    let answer = a.client.get_account_data (find_identity_state_pda a.client.programs wallet).0 in
    elim (Result-cases answer) [
      | inr (e, failed) ↦ absurd (ground (arith, rw (failed, issue_attestation) at h))
      | inl (o, answered) ↦ elim (Option-cases o) [
        | inl none_there ↦
            absurd (ground (arith, rw (answered, none_there, issue_attestation) at h))
        | inr (account, there) ↦ elim (Result-cases (deserialize_identity_state account)) [
          | inr (e, garbled) ↦ absurd (
              ground (arith, rw (answered, there, garbled, issue_attestation, issue_identity) at h))
          | inl (i, parsed) ↦ elim (Option-cases clock) [
            | inl early ↦ absurd (
                ground (
                  arith,
                  rw (answered, there, parsed, early, issue_attestation, issue_identity) at h,
                ))
            | inr (secs, read) ↦
                let sent =
                  issue_recent_sent a secs wallet sig i
                    (rw (answered, there, parsed, read, issue_attestation, issue_identity) at h) in
                record {
                  account = account;
                  identity = i;
                  existing = sent.0;
                  secs = secs;
                  found = rw there at answered;
                  parsed = parsed;
                  read = read;
                  recent = sent.1;
                  looked = sent.2;
                  transaction = attestation_instructions a secs wallet i sent.0;
                  written = attestation_instructions-IsWritten a secs wallet i sent.0;
                  sent = sent.3;
                }
          ]
        ]
      ]
    ]
