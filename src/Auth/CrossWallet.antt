-- ===== src/Auth/CrossWallet.antt =====
-- src/auth/cross_wallet_cooldown.rs: one wallet per client footprint within the cooldown. The hash
-- of a footprint (`DefaultHasher` over the salt, the subnet and the user agent) is a parameter.
pub mod Laws
use executor_node.Prelude.{
  ℕ, ◌-◌, max, Bool, true, false, not, ◌&&◌, Option, none, some, [], Bytes, Bytes_eq, ℕ_eq, ltb,
  leb, ◌==◌, if◌then◌else◌, length, Result, ok, err,
}
use executor_node.Clock.{from_secs, as_secs}
use executor_node.Map.{Map, get, contains_key, insert, retain}
use executor_node.Auth.Ip.{IpAddr, v4, v6}

abbrev pub max_tracked_fingerprints : ℕ
max_tracked_fingerprints = 50000

pub record CrossWalletCooldownTracker : Type 0 where
  pub cooldowns : Map ℕ (Bytes × ℕ)
  pub cooldown_duration : ℕ
  pub salt : ℕ

pub new : ℕ → ℕ → CrossWalletCooldownTracker
new cooldown_duration_secs salt = record {
  cooldowns = [];
  cooldown_duration = from_secs cooldown_duration_secs;
  salt = salt;
}

unfoldable pub canonicalize_subnet : IpAddr → IpAddr
canonicalize_subnet (v4 a b c d) = v4 a b c 0
canonicalize_subnet (v6 a b c d e f g h) = v6 a b c 0 0 0 0 0

-- The branches on the tracked wallet. `or_insert_with` tracks this wallet if there is no entry.
unfoldable pub swap :
    CrossWalletCooldownTracker
    → ℕ
    → ℕ
    → Bytes
    → Option (Bytes × ℕ)
    → CrossWalletCooldownTracker × Result ℕ (Unit {0})
swap t now fingerprint wallet none =
    (record t { cooldowns = insert fingerprint (wallet, now) t.cooldowns }, ok tt)
swap t now fingerprint wallet (some (tracked, first_seen)) =
    if tracked == wallet
    then (record t { cooldowns = insert fingerprint (wallet, now) t.cooldowns }, ok tt)
    else (if leb t.cooldown_duration (now - first_seen)
        then (record t { cooldowns = insert fingerprint (wallet, now) t.cooldowns }, ok tt)
        else (t, err (max (as_secs (t.cooldown_duration - (now - first_seen))) 1)))

unfoldable pub check_fingerprint :
    CrossWalletCooldownTracker → ℕ → ℕ → Bytes → CrossWalletCooldownTracker × Result ℕ (Unit {0})
unfolding swap
check_fingerprint t now fingerprint wallet =
    if not (contains_key fingerprint t.cooldowns)
      && leb max_tracked_fingerprints (length t.cooldowns)
    then (t, ok tt)
    else swap t now fingerprint wallet (get fingerprint t.cooldowns)

unfoldable pub evict_stale : CrossWalletCooldownTracker → ℕ → CrossWalletCooldownTracker
evict_stale t now = record t {
  cooldowns = retain (λ x. ltb (now - x.1) t.cooldown_duration) t.cooldowns;
}

-- The hash of the salt, the subnet and the user agent.
abbrev pub Hasher : Type 0
Hasher = ℕ → IpAddr → Bytes → ℕ

unfoldable pub fingerprint_of : Hasher → CrossWalletCooldownTracker → IpAddr → Bytes → ℕ
unfolding canonicalize_subnet
fingerprint_of hash t ip user_agent = hash t.salt (canonicalize_subnet ip) user_agent

unfoldable pub check_cooldown :
    Hasher
    → CrossWalletCooldownTracker
    → ℕ
    → IpAddr
    → Bytes
    → Bytes
    → CrossWalletCooldownTracker × Result ℕ (Unit {0})
unfolding check_fingerprint fingerprint_of
check_cooldown hash t now ip user_agent wallet =
    check_fingerprint t now (fingerprint_of hash t ip user_agent) wallet
