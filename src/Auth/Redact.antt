-- ===== src/Auth/Redact.antt =====
-- src/auth/redact.rs: the short forms of keys, wallets and addresses that are logged. A text is its
-- UTF-8 bytes; `none` is the panic of a slice that cuts a character. The printing of a number is a
-- parameter, in decimal and in hexadecimal.
pub mod Laws
use executor_node.Prelude.{
  ℕ, Bool, true, false, Option, none, some, [], ◌∷◌, ◌++◌, Bytes, bytes, Bytes_eq, ◌==◌,
  if◌then◌else◌, length, min, take, drop,
}
use executor_node.Auth.Ip.{IpAddr, v4, v6}
use executor_node.Text.{starts_inside}

abbrev pub redact_prefix_len : ℕ
redact_prefix_len = 6

-- The bytes of the ellipsis.
abbrev pub ellipsis : Bytes
ellipsis = 226 ∷ 128 ∷ 166 ∷ []

unfoldable pub redact_wallet_id : Bytes → Option Bytes
redact_wallet_id wallet =
    if wallet == []
    then some (bytes "<empty>")
    else let shown = min redact_prefix_len (length wallet) in
      if starts_inside (drop shown wallet) then none else some (take shown wallet ++ ellipsis)

-- Written out for keys as for wallets in the source.
unfoldable pub redact_api_key : Bytes → Option Bytes
redact_api_key key =
    if key == []
    then some (bytes "<empty>")
    else let shown = min redact_prefix_len (length key) in
      if starts_inside (drop shown key) then none else some (take shown key ++ ellipsis)

module _ (decimal hexadecimal : ℕ → Bytes) where
  unfoldable pub redact_ip : IpAddr → Bytes
  redact_ip (v4 a b c d) = decimal a ++ (46 ∷ (decimal b ++ (46 ∷ (decimal c ++ bytes ".0/24"))))
  redact_ip (v6 a b c d e f g h) =
      hexadecimal a ++ (58 ∷ (hexadecimal b ++ (58 ∷ (hexadecimal c ++ bytes "::/48"))))
