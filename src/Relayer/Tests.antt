-- ===== src/Relayer/Tests.antt =====
-- A small registry for src/relayer/commitment_registry.rs.
use executor_node.Prelude.{
  ◌≤◌, ◌≡◌, not, ◌&&◌, ◌||◌, if◌then◌else◌, ◌==◌, [], ◌∷◌, Bytes, bytes, Bytes_eq,
}
use executor_node.Relayer.Commitments.{
  CommitmentRegistry, check_and_record, max_commitments_per_key,
}
use executor_node.Relayer.Commitments.Laws.{is_known, count_of, clears, check_and_record_lem}

abbrev key : Bytes
key = bytes "acme"

abbrev one_commitment : CommitmentRegistry
one_commitment = record {
  entries = (key, record { commitments = (bytes "c1", tt) ∷ []; last_activity = 3 }) ∷ [];
}

check_and_record_lem_example :
    ((check_and_record one_commitment 7 key (bytes "c2")).1
      ≡ is_known one_commitment key (bytes "c2"))
    × ((j : Bytes)
        → count_of one_commitment j ≤ max_commitments_per_key
        → count_of (check_and_record one_commitment 7 key (bytes "c2")).0 j
          ≤ max_commitments_per_key)
    × ((j d : Bytes)
        → is_known (check_and_record one_commitment 7 key (bytes "c2")).0 j d ≡ (
            if j == key
            then (d == bytes "c2"
                || (not (clears one_commitment key (bytes "c2")) && is_known one_commitment j d))
            else is_known one_commitment j d))
check_and_record_lem_example = check_and_record_lem one_commitment 7 key (bytes "c2")
