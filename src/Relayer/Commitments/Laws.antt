-- ===== src/Relayer/Commitments/Laws.antt =====
-- What src/relayer/commitment_registry.rs remembers.
use executor_node.Prelude.{
  ℕ, ◌≤◌, ◌≡◌, refl, Bool, false, none, some, Bytes, arith, Bytes_eq, bytes_eq_iff, if◌then◌else◌,
  ◌==◌, length, [], ◌||◌, ◌&&◌, not, leb,
}
use executor_node.Map.{Map, get, contains_key, get-insert, length-insert-le}
use executor_node.Relayer.Commitments.{
  CommitmentEntry, CommitmentRegistry, or_new, max_commitments_per_key, record_commitment,
  check_and_record,
}

-- The set of a key, whether it holds a commitment, and how many it holds.
abbrev pub set_of : CommitmentRegistry → Bytes → Map Bytes (Unit {0})
set_of r k = elim (get k r.entries) [ none ↦ [] | some e ↦ e.commitments ]

abbrev pub is_known : CommitmentRegistry → Bytes → Bytes → Bool
is_known r k c = contains_key c (set_of r k)

abbrev pub count_of : CommitmentRegistry → Bytes → ℕ
count_of r k = length (set_of r k)

known_empty : (c : Bytes) → contains_key {V = Unit {0}} c [] ≡ false
unfolding get
known_empty c = refl

-- Whether recording the commitment empties the key's set first.
abbrev pub clears : CommitmentRegistry → Bytes → Bytes → Bool
clears r k c = not (is_known r k c) && leb max_commitments_per_key (count_of r k)

length-record_commitment :
    (set : Map Bytes (Unit {0})) (c : Bytes)
    → length set ≤ max_commitments_per_key
    → length (record_commitment set c) ≤ max_commitments_per_key
unfolding record_commitment
length-record_commitment set c h =
    ground (arith, length-insert-le c tt set, length-insert-le {V = Unit {0}} c tt [])

record_commitment_known :
    (set : Map Bytes (Unit {0})) (c d : Bytes)
    → contains_key d (record_commitment set c) ≡ (
        d == c
        || (not (not (contains_key c set) && leb max_commitments_per_key (length set))
            && contains_key d set))
unfolding record_commitment
record_commitment_known set c d = ground (
  arith,
  get-insert d c tt set,
  get-insert {V = Unit {0}} d c tt [],
  known_empty d,
  bytes_eq_iff d c,
)

set_of-check_and_record :
    (r : CommitmentRegistry) (now : ℕ) (k c j : Bytes)
    → set_of (check_and_record r now k c).0 j
      ≡ (if j == k then record_commitment (set_of r k) c else set_of r j)
unfolding check_and_record
set_of-check_and_record r now k c j =
    let set = record_commitment (or_new now (get k r.entries)).commitments c in
    let e : CommitmentEntry = record { commitments = set; last_activity = now } in
    ground (arith, get-insert j k e r.entries)

answer-check_and_record :
    (r : CommitmentRegistry) (now : ℕ) (k c : Bytes)
    → (check_and_record r now k c).1 ≡ is_known r k c
unfolding check_and_record
answer-check_and_record r now k c = ground arith

-- The call answers whether the key knew the commitment, and the key knows it afterwards. No set grows past its limit. Another key knows what it knew, and so does this key, unless the commitment is new and the set is full: then the set is emptied, and of all commitments the key knows the new one alone.
pub check_and_record_lem :
    (r : CommitmentRegistry) (now : ℕ) (k c : Bytes)
    → ((check_and_record r now k c).1 ≡ is_known r k c)
      × ((j : Bytes)
          → count_of r j ≤ max_commitments_per_key
          → count_of (check_and_record r now k c).0 j ≤ max_commitments_per_key)
      × ((j d : Bytes)
          → is_known (check_and_record r now k c).0 j d ≡ (
              if j == k
              then (d == c || (not (clears r k c) && is_known r j d))
              else is_known r j d))
check_and_record_lem r now k c = (
  answer-check_and_record r now k c,
  λ j h. ground (
    arith,
    bytes_eq_iff j k,
    set_of-check_and_record r now k c j,
    length-record_commitment (set_of r k) c,
  ),
  λ j d. ground (
    arith,
    bytes_eq_iff j k,
    set_of-check_and_record r now k c j,
    record_commitment_known (set_of r k) c d,
  ),
)
