-- ===== src/Server/Padding.antt =====
-- src/padding.rs: the padded size of a response. The JSON of a value is a parameter: its length
-- with a padding of so many characters, or none if it cannot be written.
pub mod Laws
use executor_node.Prelude.{ℕ, ◌-◌, Option, unwrap_or}

abbrev pub response_padding_target : ℕ
response_padding_target = 256

-- `Padded`: the value, and the length of its padding.
pub record Padded (T : Type 0) : Type 0 where
  pub inner : T
  pub padding : ℕ

unfoldable pub new : {T : Type 0} → (Padded T → Option ℕ) → T → Padded T
new serialized_len inner =
    let probe_len =
      unwrap_or (serialized_len (record { inner = inner; padding = 0 })) response_padding_target in
    record { inner = inner; padding = response_padding_target - probe_len }
