-- ===== src/Validation/Reputation.antt =====
-- src/reputation/mod.rs, and `observe_reputation` of src/validation/handler.rs: the reading of a
-- wallet's public history. The reads of the chain are parameters.
pub mod Laws
use executor_node.Prelude.{
  ℕ, Bool, true, false, not, ◌&&◌, Option, none, some, Bytes, Result, ok, err, if◌then◌else◌, ℤ,
  pos, ltb_ℤ, saturating_sub, unwrap_or,
}
use executor_node.Error.{AppError}
use executor_node.Solana.Pda.{Programs, find_identity_state_pda}
use executor_node.Attestation.Sas.{IdentityStateData, deserialize_identity_state}
use executor_node.Attestation.Issue.{as_i64}
use executor_node.Validation.Float.{one}
use executor_node.Validation.Risk.{WalletReputation}

-- The reads of `SolanaClient`. Of the recent activity only the count is scored.
pub record SolanaClient : Type 0 where
  pub programs : Programs
  pub get_balance_of : Bytes → Result AppError ℕ
  pub get_recent_activity : Bytes → Result AppError ℕ
  pub get_funding_parent : Bytes → Result AppError (Option Bytes)
  pub get_account_data : Bytes → Result AppError (Option Bytes)

-- `(0..86400).contains(&age_secs)`
unfoldable pub is_day_old : ℤ → ℤ → Bool
unfolding saturating_sub
is_day_old verified_at now =
    let age_secs = saturating_sub now verified_at in
    not (ltb_ℤ age_secs (pos 0)) && ltb_ℤ age_secs (pos 86400)

-- The seconds of the clock, 0 before the epoch.
abbrev pub clock_secs : Option ℕ → ℤ
clock_secs none = pos 0
clock_secs (some secs) = as_i64 secs

abbrev pub ok_or_none : {A : Type 0} → Result AppError (Option A) → Option A
ok_or_none (ok o) = o
ok_or_none (err e) = none

module _ (client : SolanaClient) (clock : Option ℕ) where
  -- What the account of a parent adds.
  unfoldable pub account_risk : Option Bytes → ℕ
  unfolding deserialize_identity_state is_day_old
  account_risk none = 0
  account_risk (some identity_data) = elim (deserialize_identity_state identity_data) [
    | err e ↦ 0
    | ok identity ↦
        if is_day_old identity.last_verification_timestamp (clock_secs clock) then one else 0
  ]

  unfoldable pub parent_risk : Option Bytes → ℕ
  unfolding account_risk
  parent_risk none = 0
  parent_risk (some parent) =
      account_risk
        (ok_or_none (client.get_account_data (find_identity_state_pda client.programs parent).0))

  unfoldable pub fetch_wallet_reputation : Bytes → Result AppError WalletReputation
  unfolding parent_risk
  fetch_wallet_reputation wallet = elim (client.get_recent_activity wallet) [
    | err e ↦ err e
    | ok signature_count ↦
        let sybil_risk = parent_risk (ok_or_none (client.get_funding_parent wallet)) in
        elim (client.get_balance_of wallet) [
          | err e ↦ err e
          | ok sol_lamports ↦ ok (record {
            sol_lamports = sol_lamports;
            signature_count = signature_count;
            sybil_risk = sybil_risk;
          })
        ]
  ]

  -- Whether the reading is on, whether the gate gives a permit, and whether the time suffices.
  unfoldable pub observe_reputation : Bool → Bool → Bool → Bytes → Option WalletReputation
  unfolding fetch_wallet_reputation
  observe_reputation false permit in_time wallet = none
  observe_reputation true false in_time wallet = none
  observe_reputation true true false wallet = none
  observe_reputation true true true wallet = elim (fetch_wallet_reputation wallet) [
    | ok rep ↦ some rep
    | err e ↦ none
  ]
