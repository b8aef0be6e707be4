-- ===== src/Validation/Intent/Laws.antt =====
-- What an identity on the chain lets a request of src/validation/handler.rs do.
use executor_node.Prelude.{
  ℕ, suc, zero, ◌-◌, ◌/◌, ◌≤◌, ◌<◌, ◌≡◌, ◌↔◌, ◌⊎◌, inl, inr, Bool, true, false, ◌&&◌, Option, none,
  some, Bytes, ok, length, take, drop, leb, Bool-cases, arith, Bytes_eq, bytes_eq_iff, ◌==◌, ltb,
  All, err, ◌≢◌,
}
use executor_node.Error.{projection_update_required, solana_rpc_unavailable}
use executor_node.Validation.Intent.{
  ProjectionIntent, mint, update, rebaseline, reset, identity_discriminator, stored_version,
  derive_projection_intent, read_slots, recent_timestamps,
}

-- For a wallet without an identity the intent is to mint, unless a reset is asked for, and for an identity account it follows the versions: a request of the stored version updates, or resets if a reset is asked for; a request of a newer version rebaselines, unless a reset is asked for; exactly a request of an older version is told to update. Exactly an account that does not start with the discriminator is refused as a failure of the chain.
pub derive_projection_intent_lem :
    (data_ : Bytes) (requested : ℕ) (reset_requested : Bool) (intent : ProjectionIntent)
    → ((derive_projection_intent none requested reset_requested ≡ ok intent)
        ↔ ((reset_requested ≡ false) × (intent ≡ mint)))
      × ((derive_projection_intent (some data_) requested reset_requested ≡ ok intent) ↔ (
          (8 ≤ length data_)
          × (take 8 data_ ≡ identity_discriminator)
          × (((requested ≡ stored_version data_) × (reset_requested ≡ true) × (intent ≡ reset))
              ⊎ ((requested ≡ stored_version data_) × (reset_requested ≡ false) × (intent ≡ update))
              ⊎ ((stored_version data_ < requested)
                  × (reset_requested ≡ false)
                  × (intent ≡ rebaseline)))))
      × ((derive_projection_intent (some data_) requested reset_requested
            ≡ err projection_update_required)
          ↔ ((8 ≤ length data_)
              × (take 8 data_ ≡ identity_discriminator)
              × (requested < stored_version data_)))
      × ((derive_projection_intent (some data_) requested reset_requested
            ≡ err solana_rpc_unavailable)
          ↔ ((length data_ < 8) ⊎ (take 8 data_ ≢ identity_discriminator)))
unfolding derive_projection_intent
derive_projection_intent_lem data_ requested reset_requested intent = (
  ground arith,
  ground (arith, bytes_eq_iff (take 8 data_) identity_discriminator),
  ground (arith, bytes_eq_iff (take 8 data_) identity_discriminator),
  ground (arith, bytes_eq_iff (take 8 data_) identity_discriminator),
)

read_slots-positive :
    (n : ℕ) (data_ : Bytes)
    → (length (read_slots n data_) ≤ n)
      × All (λ ts. (0 < ts) × (ts < 0x8000000000000000)) (read_slots n data_)
unfolding read_slots
read_slots-positive zero data_ = (omega arith, tt)
read_slots-positive (suc n) data_ = ground (arith, read_slots-positive n (drop 8 data_))

short_bound :
    (data_ : Bytes)
    → leb 543 (length data_) ≡ false
    → (n : ℕ) → n ≤ (length data_ - 127) / 8
    → n ≤ 52
short_bound data_ short n h = ground arith

-- At most 52 timestamps are read, however long the account is, and each is a positive 64-bit integer.
pub recent_timestamps_lem :
    (account : Option Bytes)
    → (length (recent_timestamps account) ≤ 52)
      × All (λ ts. (0 < ts) × (ts < 0x8000000000000000)) (recent_timestamps account)
unfolding recent_timestamps
recent_timestamps_lem none = (omega arith, tt)
recent_timestamps_lem (some data_) =
    let whole = read_slots-positive 52 (drop 127 data_) in
    let part = read_slots-positive ((length data_ - 127) / 8) (drop 127 data_) in
    elim (Bool-cases (leb 8 (length data_) && (take 8 data_ == identity_discriminator))) [
      | inr foreign ↦ rw foreign (omega arith, tt)
      | inl ours ↦ rw ours (elim (Bool-cases (leb 543 (length data_))) [
        | inl full ↦ rw full whole
        | inr short ↦ rw short (elim (Bool-cases (ltb 127 (length data_))) [
          | inr none_yet ↦ rw none_yet (omega arith, tt)
          | inl partial ↦ rw partial (short_bound data_ short _ part.0, part.1)
        ])
      ])
    ]
