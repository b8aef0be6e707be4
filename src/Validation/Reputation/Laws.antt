-- ===== src/Validation/Reputation/Laws.antt =====
-- When src/reputation/mod.rs takes a wallet for one of many of the same owner.
use executor_node.Prelude.{
  ℕ, ◌≡◌, ◌↔◌, refl, sym, ap, ◌∙◌, inl, inr, true, Option, none, some, Bytes, arith, ok, ℤ, pos,
  negsuc, IsI64, ◌≤ℤ◌, ◌+ℤ◌, saturating_sub, Bool-cases, Result-cases,
}
use executor_node.Solana.Pda.{find_identity_state_pda}
use executor_node.Attestation.Sas.{IdentityStateData, deserialize_identity_state}
use executor_node.Validation.Float.{one}
use executor_node.Validation.Risk.{WalletReputation}
use executor_node.Validation.Reputation.{
  SolanaClient, is_day_old, clock_secs, ok_or_none, account_risk, parent_risk,
  fetch_wallet_reputation,
}

-- For times that fit 64 bits the saturating difference changes nothing.
is_day_old_iff :
    (verified_at now : ℤ)
    → IsI64 verified_at
    → IsI64 now
    → (is_day_old verified_at now ≡ true)
      ↔ ((verified_at ≤ℤ now) × (now +ℤ pos 1 ≤ℤ verified_at +ℤ pos 86400))
unfolding is_day_old saturating_sub ◌+ℤ◌
is_day_old_iff (pos t) (pos n) h k = (λ e. ground arith, λ e. ground arith)
is_day_old_iff (pos t) (negsuc n) h k = (λ e. ground arith, λ e. ground arith)
is_day_old_iff (negsuc t) (pos n) h k = (λ e. ground arith, λ e. ground arith)
is_day_old_iff (negsuc t) (negsuc n) h k = (λ e. ground arith, λ e. ground arith)

module _ (client : SolanaClient) (clock : Option ℕ) where
  -- The wallet was first funded by a wallet with an identity that was verified in the last day.
  pub record IsTraced (wallet : Bytes) : Type 0 where
    pub parent : Bytes
    pub account : Bytes
    pub identity : IdentityStateData
    pub funded : ok_or_none (client.get_funding_parent wallet) ≡ some parent
    pub found :
        ok_or_none (client.get_account_data (find_identity_state_pda client.programs parent).0)
        ≡ some account
    pub parsed : deserialize_identity_state account ≡ ok identity
    pub recent : is_day_old identity.last_verification_timestamp (clock_secs clock) ≡ true

  account_risk-one :
      (o : Option Bytes)
      → account_risk client clock o ≡ one
      → (account : Bytes) × (identity : IdentityStateData) × (o ≡ some account)
        × (deserialize_identity_state account ≡ ok identity)
        × (is_day_old identity.last_verification_timestamp (clock_secs clock) ≡ true)
  unfolding account_risk
  account_risk-one none h = absurd (ground arith)
  account_risk-one (some account) h = elim (Result-cases (deserialize_identity_state account)) [
    | inr (e, garbled) ↦ absurd (ground (arith, rw (garbled, account_risk) at h))
    | inl (i, parsed) ↦
        elim (Bool-cases (is_day_old i.last_verification_timestamp (clock_secs clock))) [
          | inr old ↦ absurd (ground (arith, rw (parsed, old, account_risk) at h))
          | inl recent ↦ (account, i, refl, parsed, recent)
        ]
  ]

  parent_risk-IsTraced :
      (wallet : Bytes) (o : Option Bytes)
      → ok_or_none (client.get_funding_parent wallet) ≡ o
      → parent_risk client clock o ≡ one
      → IsTraced wallet
  unfolding parent_risk
  parent_risk-IsTraced wallet none funded h = absurd (ground arith)
  parent_risk-IsTraced wallet (some parent) funded h =
      let (account, i, found, parsed, recent) =
        account_risk-one
          (ok_or_none (client.get_account_data (find_identity_state_pda client.programs parent).0))
          h in
      record {
        parent = parent;
        account = account;
        identity = i;
        funded = funded;
        found = found;
        parsed = parsed;
        recent = recent;
      }

  parent_risk_traced :
      (wallet : Bytes)
      → IsTraced wallet
      → parent_risk client clock (ok_or_none (client.get_funding_parent wallet)) ≡ one
  unfolding parent_risk account_risk
  parent_risk_traced wallet t =
      rw (t.funded, parent_risk, t.found, account_risk, t.parsed, t.recent) refl

  -- A reputation that is read has the balance and the activity that the chain answers, and it is marked at risk exactly if the wallet's funding parent has an identity account that parses and whose last verification is less than a day before the clock and not after it.
  pub fetch_wallet_reputation_iff :
      (wallet : Bytes) (rep : WalletReputation)
      → fetch_wallet_reputation client clock wallet ≡ ok rep
      → (client.get_balance_of wallet ≡ ok rep.sol_lamports)
        × (client.get_recent_activity wallet ≡ ok rep.signature_count)
        × ((rep.sybil_risk ≡ one) ↔ IsTraced wallet)
  unfolding fetch_wallet_reputation
  fetch_wallet_reputation_iff wallet rep h =
      elim (Result-cases (client.get_recent_activity wallet)) [
        | inr (e, failed) ↦ absurd (ground (arith, rw (failed, fetch_wallet_reputation) at h))
        | inl (count, active) ↦ elim (Result-cases (client.get_balance_of wallet)) [
          | inr (e, failed) ↦
              absurd (ground (arith, rw (active, failed, fetch_wallet_reputation) at h))
          | inl (lamports, balance) ↦
              let same = rw (active, balance, fetch_wallet_reputation) at h in
              let parent = ok_or_none (client.get_funding_parent wallet) in
              let risk : parent_risk client clock parent ≡ rep.sybil_risk = ground (arith, same) in
              (
                balance ∙ ap ok (ground (arith, same)),
                active ∙ ap ok (ground (arith, same)),
                (
                  λ e. parent_risk-IsTraced wallet parent refl (risk ∙ e),
                  λ t. sym risk ∙ parent_risk_traced wallet t,
                ),
              )
        ]
      ]
