-- ===== src/Auth/CrossWallet/Laws.antt =====
-- The exclusion that src/auth/cross_wallet_cooldown.rs enforces.
use executor_node.Prelude.{
  ℕ, ◌+◌, ◌-◌, ◌≤◌, ◌<◌, ◌≡◌, refl, ◌∙◌, ◌⊎◌, inl, inr, true, false, some, arith, List, [], ◌∷◌,
  Bool-cases, if◌then◌else◌, ◌==◌, is_ok, Bytes, Bytes_eq, bytes_eq_iff, ℕ_eq, nat_eq_iff, ltb, All,
  ◌&&◌, not, nat_eq,
}
use executor_node.Map.{get, get-insert, get-insert_self, get-retain}
use executor_node.Auth.Ip.{IpAddr}
use executor_node.Auth.CrossWallet.{
  CrossWalletCooldownTracker, Hasher, check_cooldown, check_fingerprint, fingerprint_of,
  evict_stale,
}

-- A history: requests of a footprint with a wallet, and sweeps.
pub data Event : Type 0 where
  asks : IpAddr → (user_agent wallet : Bytes) → Event
  sweeps : Event

module _ (hash : Hasher) where
  unfoldable pub step : CrossWalletCooldownTracker → ℕ × Event → CrossWalletCooldownTracker
  step t (now, asks ip ua wallet) = (check_cooldown hash t now ip ua wallet).0
  step t (now, sweeps) = evict_stale t now

  -- How many requests of other wallets of the fingerprint are allowed.
  unfoldable pub intrusions : ℕ → Bytes → CrossWalletCooldownTracker → List (ℕ × Event) → ℕ
  intrusions fp wallet t [] = 0
  intrusions fp wallet t ((now, asks ip ua other) ∷ rest) =
      (if nat_eq fp (fingerprint_of hash t ip ua) && not (wallet == other)
        then (if is_ok (check_cooldown hash t now ip ua other).1 then 1 else 0)
        else 0)
      + intrusions fp wallet (step t (now, asks ip ua other)) rest
  intrusions fp wallet t ((now, sweeps) ∷ rest) = intrusions fp wallet (step t (now, sweeps)) rest

  step_same :
      (t : CrossWalletCooldownTracker) (ev : ℕ × Event)
      → ((step t ev).cooldown_duration ≡ t.cooldown_duration) × ((step t ev).salt ≡ t.salt)
  unfolding step check_cooldown evict_stale
  step_same t (now, asks ip ua w) = ground arith
  step_same t (now, sweeps) = (refl, refl)

swap_other :
    (t : CrossWalletCooldownTracker) (now fp fp' : ℕ) (other : Bytes)
    → nat_eq fp fp' ≡ false
    → get fp (check_fingerprint t now fp' other).0.cooldowns ≡ get fp t.cooldowns
unfolding check_fingerprint
swap_other t now fp fp' other h = ground (arith, h, get-insert fp fp' (other, now) t.cooldowns)

swap_held :
    (t : CrossWalletCooldownTracker) (now fp seen : ℕ) (wallet : Bytes)
    → get fp t.cooldowns ≡ some (wallet, seen)
    → (is_ok (check_fingerprint t now fp wallet).1 ≡ true)
      × (get fp (check_fingerprint t now fp wallet).0.cooldowns ≡ some (wallet, now))
unfolding check_fingerprint
swap_held t now fp seen wallet h =
    ground (arith, h, bytes_eq_iff wallet wallet, get-insert_self fp (wallet, now) t.cooldowns)

swap_refused :
    (t : CrossWalletCooldownTracker) (now fp seen : ℕ) (wallet other : Bytes)
    → get fp t.cooldowns ≡ some (wallet, seen)
    → (wallet == other) ≡ false
    → 0 < t.cooldown_duration
    → now < seen + t.cooldown_duration
    → (is_ok (check_fingerprint t now fp other).1 ≡ false)
      × (get fp (check_fingerprint t now fp other).0.cooldowns ≡ some (wallet, seen))
unfolding check_fingerprint
swap_refused t now fp seen wallet other h w d b = ground (arith, h, w)

-- What a request does to a footprint that a wallet holds.
swap_cases :
    (t : CrossWalletCooldownTracker) (now fp fp' seen : ℕ) (wallet other : Bytes)
    → get fp t.cooldowns ≡ some (wallet, seen)
    → 0 < t.cooldown_duration
    → now < seen + t.cooldown_duration
    → (((nat_eq fp fp' && not (wallet == other)) ≡ true)
        × (is_ok (check_fingerprint t now fp' other).1 ≡ false)
        × (get fp (check_fingerprint t now fp' other).0.cooldowns ≡ some (wallet, seen)))
      ⊎ (((nat_eq fp fp' && not (wallet == other)) ≡ false)
          × ((get fp (check_fingerprint t now fp' other).0.cooldowns ≡ some (wallet, seen))
              ⊎ (get fp (check_fingerprint t now fp' other).0.cooldowns ≡ some (wallet, now))))
swap_cases t now fp fp' seen wallet other held d b = elim (Bool-cases (nat_eq fp fp')) [
  | inl mine ↦ rw (← (nat_eq_iff fp fp').0 mine) (elim (Bool-cases (wallet == other)) [
    | inl again ↦ rw (← (bytes_eq_iff wallet other).0 again) (
        inr
          (ground (arith, bytes_eq_iff wallet wallet), inr (swap_held t now fp seen wallet held).1))
    | inr strange ↦
        let refused = swap_refused t now fp seen wallet other held strange d b in
        inl (ground (arith, strange), refused.0, refused.1)
  ])
  | inr another ↦ inr (ground (arith, another), inl (swap_other t now fp fp' other another ∙ held))
]

module _ (hash : Hasher) where
  asks_lem :
      (t : CrossWalletCooldownTracker) (now : ℕ) (ip : IpAddr) (ua w : Bytes)
      → check_cooldown hash t now ip ua w ≡ check_fingerprint t now (fingerprint_of hash t ip ua) w
  unfolding check_cooldown
  asks_lem t now ip ua w = refl

  sweeps_held :
      (t : CrossWalletCooldownTracker) (now fp seen : ℕ) (wallet : Bytes)
      → get fp t.cooldowns ≡ some (wallet, seen)
      → 0 < t.cooldown_duration
      → now < seen + t.cooldown_duration
      → get fp (evict_stale t now).cooldowns ≡ some (wallet, seen)
  unfolding evict_stale
  sweeps_held t now fp seen wallet h d b =
      ground (arith, h, get-retain (λ x. ltb (now - x.1) t.cooldown_duration) fp t.cooldowns)

  -- While a wallet holds a footprint, no request of another wallet with that footprint passes: over any history of requests and sweeps whose times lie within one cooldown of a time at which the wallet held it, the count of such requests is zero.
  pub intrusions_none :
      (fp since seen d : ℕ) (wallet : Bytes) (t : CrossWalletCooldownTracker)
      (history : List (ℕ × Event))
      → get fp t.cooldowns ≡ some (wallet, seen)
      → since ≤ seen
      → t.cooldown_duration ≡ d
      → All (λ ev. (since ≤ ev.0) × (ev.0 < since + d)) history
      → intrusions hash fp wallet t history ≡ 0
  unfolding intrusions step
  intrusions_none fp since seen d wallet t [] held from dur within = refl
  intrusions_none fp since seen d wallet t ((now, asks ip ua other) ∷ rest) held from dur within =
      let asked = asks_lem t now ip ua other in
      let next = (check_cooldown hash t now ip ua other).0 in
      let kept = (step_same hash t (now, asks ip ua other)).0 ∙ dur in
      let cases = rw (← asked) at (
        swap_cases t now fp (fingerprint_of hash t ip ua) seen wallet other held (omega arith)
          (omega arith)) in
      elim cases [
        | inl (strange, refused, still) ↦ ground (
          arith,
          strange,
          refused,
          intrusions_none fp since seen d wallet next rest still from kept within.1,
        )
        | inr (mine, inl still) ↦
            ground (
              arith,
              mine,
              intrusions_none fp since seen d wallet next rest still from kept within.1,
            )
        | inr (mine, inr renewed) ↦ ground (
          arith,
          mine,
          intrusions_none fp since now d wallet next rest renewed within.0.0 kept within.1,
        )
      ]
  intrusions_none fp since seen d wallet t ((now, sweeps) ∷ rest) held from dur within =
      intrusions_none fp since seen d wallet (evict_stale t now) rest
        (sweeps_held t now fp seen wallet held (omega arith) (omega arith)) from
        ((step_same hash t (now, sweeps)).0 ∙ dur) within.1
