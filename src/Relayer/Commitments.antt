-- ===== src/Relayer/Commitments.antt =====
-- src/relayer/commitment_registry.rs: the commitments seen per API key. A set is a map to `Unit`.
pub mod Laws
use executor_node.Prelude.{
  ℕ, ◌-◌, Bool, true, false, Option, none, some, [], Bytes, Bytes_eq, ltb, leb, if◌then◌else◌,
  length,
}
use executor_node.Clock.{as_secs}
use executor_node.Map.{Map, get, contains_key, insert, retain}

abbrev pub max_commitments_per_key : ℕ
max_commitments_per_key = 10000

abbrev pub entry_ttl_secs : ℕ
entry_ttl_secs = 3600

pub record CommitmentEntry : Type 0 where
  pub commitments : Map Bytes (Unit {0})
  pub last_activity : ℕ

pub record CommitmentRegistry : Type 0 where
  pub entries : Map Bytes CommitmentEntry

pub new : CommitmentRegistry
new = record { entries = [] }

abbrev pub or_new : ℕ → Option CommitmentEntry → CommitmentEntry
or_new now none = record { commitments = []; last_activity = now }
or_new now (some e) = e

-- The set that the new commitment goes into: emptied at capacity.
unfoldable pub make_room : Map Bytes (Unit {0}) → Map Bytes (Unit {0})
make_room set = if leb max_commitments_per_key (length set) then [] else set

-- The commitments of the key after the call.
unfoldable pub record_commitment : Map Bytes (Unit {0}) → Bytes → Map Bytes (Unit {0})
unfolding make_room
record_commitment set commitment =
    if contains_key commitment set then set else insert commitment tt (make_room set)

-- The answer says whether the commitment was known.
unfoldable pub check_and_record : CommitmentRegistry → ℕ → Bytes → Bytes → CommitmentRegistry × Bool
unfolding record_commitment
check_and_record r now api_key commitment =
    let e = or_new now (get api_key r.entries) in
    let e' : CommitmentEntry = record {
      commitments = record_commitment e.commitments commitment;
      last_activity = now;
    } in
    (record { entries = insert api_key e' r.entries }, contains_key commitment e.commitments)

unfoldable pub evict_stale : CommitmentRegistry → ℕ → CommitmentRegistry
evict_stale r now = record {
  entries = retain (λ e. ltb (as_secs (now - e.last_activity)) entry_ttl_secs) r.entries;
}
