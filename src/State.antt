-- ===== src/State.antt =====
-- src/server.rs: what the validation handlers read and write of `AppState`. A field of a type of
-- another component is that component's state.
pub mod Sample
use executor_node.Prelude.{ℕ, Bool, Option, List, Bytes}
use executor_node.Map.{Map}
use executor_node.Auth.Ip.{IpAddr}
use executor_node.Auth.CrossWallet.{CrossWalletCooldownTracker}
use executor_node.Challenge.Registry.{ChallengeNonceRegistry}
use executor_node.Integrator.Tracker.{IntegratorTracker}
use executor_node.Integrator.WalletAttempts.{WalletAttemptTracker}
use executor_node.Validation.Composite.{ScoringConfig}

pub record AppState : Type 0 where
  pub tracker : IntegratorTracker
  pub wallet_attempts : WalletAttemptTracker
  pub challenge_registry : ChallengeNonceRegistry
  pub cross_wallet_cooldown : CrossWalletCooldownTracker
  -- The end of each block.
  pub probing_blocklist : Map IpAddr ℕ
  pub validations_performed : ℕ
  pub attestations : ℕ
  pub challenge_required : Bool
  -- Whether `validation_url` is set.
  pub has_validator : Bool
  pub automation_webdriver_reject : Bool
  pub cross_wallet_cooldown_enforce : Bool
  pub wallet_reputation_observe : Bool
  -- The wallets that may open paired sessions; `none` admits every wallet.
  pub paired_wallets : Option (List Bytes)
  pub scoring_config : ScoringConfig
