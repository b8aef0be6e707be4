-- ===== src/Auth/Tests.antt =====
-- Small limiters, keys, addresses and footprints for src/auth.
use executor_node.Prelude.{
  ℕ, ◌+◌, ◌-◌, ◌≤◌, ◌≡◌, ◌↔◌, refl, Option, none, some, List, [], ◌∷◌, Bytes, bytes, bytes_eq,
  bytes_eq_iff, Bytes_eq, arith, ltb, ok, length,
}
use executor_node.Map.{get, insert, remove}
use executor_node.Auth.Ip.{IpAddr, v4}
use executor_node.Auth.ApiKey.{api_key_auth}
use executor_node.Auth.ApiKey.Laws.{IsOneOf, api_key_auth_iff}
use executor_node.Auth.CrossWallet.{CrossWalletCooldownTracker, Hasher}
use executor_node.Auth.CrossWallet.Laws.{Event, asks, sweeps, intrusions, intrusions_none}
use executor_node.Auth.RateLimit.{Governor, Limiters, passes_guard, enter_entry}
use executor_node.Auth.RateLimit.Race.{Racing, Reach, start, later, arrives, enters, Reach-bounded}
use executor_node.Auth.RateLimit.Laws.{bucket_answers, times, answers, answers-bucket_answers}

abbrev key : Bytes
key = bytes "acme"

api_key_auth_iff_example :
    (api_key_auth bytes_eq (some key) (key ∷ []) ≡ ok key)
    ↔ ((some key ≡ some key) × IsOneOf key (key ∷ []))
api_key_auth_iff_example =
    api_key_auth_iff bytes_eq (λ a b _. bytes_eq_iff a b) (some key) (key ∷ []) key

abbrev no_parse : Bytes → Option IpAddr
no_parse text = none

abbrev outside : IpAddr
outside = v4 203 0 113 9

-- A bucket that counts down.
abbrev counter : Governor
counter = record { Limiter = ℕ; direct = λ n. n; check = λ n now. (n - 1, ltb 0 n) }

abbrev one_key : Limiters counter Bytes
one_key = record { limiters = (key, (1, 10)) ∷ []; quota = 5; retry_after_secs = 12 }

abbrev requests : List (ℕ × Bytes)
requests = (11, key) ∷ (12, bytes "other") ∷ (13, key) ∷ []

abbrev no_key : Limiters counter Bytes
no_key = record { limiters = []; quota = 5; retry_after_secs = 12 }

abbrev two_keys : Racing counter Bytes
two_keys = record {
  limiters = enter_entry counter (enter_entry counter no_key 20 (bytes "other")) 21 key;
  inside = [];
}

-- Two requests at once pass the test of a map with room for one key.
raced : Reach counter Bytes 1 2 no_key two_keys
unfolding passes_guard get
raced =
    later
      (later
        (later (later start (arrives key (omega arith) refl))
          (arrives (bytes "other") (omega arith) refl))
        (enters 20 (bytes "other") [] (key ∷ []) refl))
      (enters 21 key [] [] refl)

-- It then holds two.
overfull : length two_keys.limiters.limiters ≡ 2
unfolding enter_entry insert remove bytes_eq
overfull = refl

Reach-bounded_example : length two_keys.limiters.limiters + 1 ≤ 1 + 2
Reach-bounded_example =
    Reach-bounded counter Bytes 1 2 no_key two_keys (omega arith) (omega arith) raced

answers-bucket_answers_example :
    answers counter 3 key one_key requests ≡ bucket_answers counter 1 (times counter key requests)
unfolding get bytes_eq
answers-bucket_answers_example = answers-bucket_answers counter 3 key requests one_key 1 10 refl

abbrev flat_hash : Hasher
flat_hash salt subnet user_agent = 7

abbrev held : CrossWalletCooldownTracker
held = record { cooldowns = (7, (bytes "W", 100)) ∷ []; cooldown_duration = 50; salt = 3 }

abbrev history : List (ℕ × Event)
history =
    (110, asks outside (bytes "ua") (bytes "V"))
    ∷ (120, sweeps)
    ∷ (130, asks outside (bytes "ua") (bytes "W"))
    ∷ []

intrusions_none_example : intrusions flat_hash 7 (bytes "W") held history ≡ 0
unfolding get
intrusions_none_example =
    intrusions_none flat_hash 7 100 100 50 (bytes "W") held history refl (omega arith) refl
      ((omega arith, omega arith), ((omega arith, omega arith), ((omega arith, omega arith), tt)))
