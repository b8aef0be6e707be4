-- ===== src/State/Sample.antt =====
-- A state for the tests: an integrator with two calls left, a wallet that has tried once, and a
-- wallet with a challenge.
use executor_node.Prelude.{true, false, none, some, [], ◌∷◌, Bytes, bytes, replicate, take, err}
use executor_node.Integrator.Tracker.{IntegratorState}
use executor_node.Error.{solana_rpc_unavailable}
use executor_node.Validation.Handler.{Services}
use executor_node.State.{AppState}

abbrev pub sample_nonce : Bytes
sample_nonce = replicate 32 3

abbrev pub sample_wallet : Bytes
sample_wallet = replicate 32 7

abbrev pub integrator : IntegratorState
integrator = record { name = []; quota = 3; used = 1 }

abbrev pub state : AppState
state = record {
  tracker = record { state = (bytes "acme", integrator) ∷ []; allow_unknown = false };
  wallet_attempts = record {
    state = (bytes "W", record { attempts = 1; window_start = 100 }) ∷ [];
    max_attempts = 3;
    window_duration = 50;
  };
  challenge_registry = record {
    entries =
        (
          sample_wallet,
          record {
            current_legacy_nonce = some sample_nonce;
            by_nonce =
                (
                  sample_nonce,
                  record {
                    phrase = [];
                    curve = record {
                      a = 1;
                      b = 2;
                      delta = 0;
                      points = 200;
                      anchor_x = 0;
                      anchor_y = 0;
                    };
                    issued_at = 100;
                  },
                )
                ∷ [];
          },
        )
        ∷ [];
    ttl_secs = 60;
  };
  cross_wallet_cooldown = record { cooldowns = []; cooldown_duration = 50; salt = 3 };
  probing_blocklist = [];
  validations_performed = 0;
  attestations = 0;
  challenge_required = false;
  has_validator = true;
  automation_webdriver_reject = true;
  cross_wallet_cooldown_enforce = true;
  wallet_reputation_observe = false;
  paired_wallets = none;
  scoring_config = record {
    biometric_weight = 0;
    tts_weight = 0;
    automation_weight = 0;
    reputation_weight = 0;
    friction_threshold = 1;
    reject_threshold = 2;
  };
}

-- Services whose chain is down.
abbrev pub services : Services
services = record {
  wallets = record {
    hash = λ b. take 32 b;
    from_str = λ t. some t;
    to_string = λ w. w;
    verify = λ signature wallet message. true;
    decimal = λ n. [];
  };
  float = record {
    add = λ x y. x;
    sub = λ x y. x;
    mul = λ x y. x;
    div = λ x y. x;
    of_nat = λ n. n;
  };
  hasher = λ salt subnet user_agent. 7;
  parse_ip = λ t. none;
  identity = λ w. err solana_rpc_unavailable;
  validator = λ body. none;
  reputation = λ w. none;
}
