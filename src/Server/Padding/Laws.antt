-- ===== src/Server/Padding/Laws.antt =====
-- The size of a padded response of src/padding.rs.
use executor_node.Prelude.{ℕ, ◌+◌, ◌≡◌, ap, arith, max, Option, some}
use executor_node.Server.Padding.{Padded, new, response_padding_target}

-- A response whose JSON grows by one byte for each character of the padding has exactly the target size, or its own size where that is larger.
pub length-new :
    {T : Type 0} (serialized_len : Padded T → Option ℕ) (inner : T) (n : ℕ)
    → ((k : ℕ) → serialized_len (record { inner = inner; padding = k }) ≡ some (n + k))
    → serialized_len (new serialized_len inner) ≡ some (max n response_padding_target)
unfolding new
length-new serialized_len inner n h = rw (h 0, h _) (ap some (omega arith))
