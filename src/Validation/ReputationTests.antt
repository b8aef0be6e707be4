-- ===== src/Validation/ReputationTests.antt =====
-- A run of src/reputation/mod.rs, and its theorem at a concrete input: a wallet whose funding
-- parent has just been verified.
use executor_node.Prelude.{
  ◌≡◌, ◌↔◌, refl, some, ok, ◌++◌, Bytes, Bytes_eq, bytes_eq, replicate, saturating_sub, ◌-ℤ◌,
}
use executor_node.Validation.Float.{one}
use executor_node.Validation.Intent.{from_le_bytes, identity_discriminator}
use executor_node.Validation.Risk.{WalletReputation}
use executor_node.Attestation.Sas.{deserialize_identity_state}
use executor_node.Validation.Reputation.{
  SolanaClient, is_day_old, account_risk, parent_risk, fetch_wallet_reputation,
}
use executor_node.Validation.Reputation.Laws.{IsTraced, fetch_wallet_reputation_iff}

-- The account is of time 0.
abbrev account : Bytes
account = identity_discriminator ++ replicate 100 0

abbrev client : SolanaClient
client = record {
  programs = record {
    find_program_address = λ seeds program. (program, 255);
    verifier_program = replicate 32 10;
    anchor_program = replicate 32 11;
    registry_program = replicate 32 12;
    attestation_program_id = replicate 32 13;
    system_program_id = replicate 32 14;
  };
  get_balance_of = λ wallet. ok 5;
  get_recent_activity = λ wallet. ok 3;
  get_funding_parent = λ wallet. ok (some (replicate 32 1));
  get_account_data = λ address. ok (some account);
}

abbrev wallet : Bytes
wallet = replicate 32 7

abbrev funded : WalletReputation
funded = record { sol_lamports = 5; signature_count = 3; sybil_risk = one }

fetched : fetch_wallet_reputation client (some 86399) wallet ≡ ok funded
unfolding fetch_wallet_reputation parent_risk account_risk deserialize_identity_state is_day_old
    saturating_sub ◌-ℤ◌ from_le_bytes bytes_eq
fetched = refl

fetch_wallet_reputation_iff_example :
    (client.get_balance_of wallet ≡ ok 5)
    × (client.get_recent_activity wallet ≡ ok 3)
    × ((one ≡ one) ↔ IsTraced client (some 86399) wallet)
fetch_wallet_reputation_iff_example =
    fetch_wallet_reputation_iff client (some 86399) wallet funded fetched
