-- ===== src/Auth/ClientIp.antt =====
-- src/auth/client_ip.rs: the address that a request is attributed to. The text of an address is
-- parsed by the standard library, a parameter: `parse` is `to_str`, `trim` and `parse` together.
pub mod Laws
use Prim.Native.Nat.{bit_and}
use executor_node.Prelude.{
  ℕ, ◌/◌, ◌%◌, Bool, true, false, ◌&&◌, ◌||◌, Option, none, some, Bytes, ltb, leb, nat_eq,
  if◌then◌else◌, is_some_and, and_then,
}
use executor_node.Auth.Ip.{IpAddr, v4, v6}

-- `Ipv6Addr::to_ipv4_mapped` and the collapse of a mapped address.
unfoldable pub canonicalize : IpAddr → IpAddr
canonicalize (v4 a b c d) = v4 a b c d
canonicalize (v6 a b c d e f g h) =
    if nat_eq a 0 && (nat_eq b 0 && (nat_eq c 0 && (nat_eq d 0 && (nat_eq e 0 && nat_eq f 0xffff))))
    then v4 (g / 256) (g % 256) (h / 256) (h % 256)
    else v6 a b c d e f g h

-- `is_private`, `is_loopback`, `is_link_local` of `Ipv4Addr`, and the shared address space.
unfoldable pub is_private_v4 : ℕ → ℕ → Bool
is_private_v4 a b =
    nat_eq a 10
    || (nat_eq a 172 && (leb 16 b && leb b 31))
    || (nat_eq a 192 && nat_eq b 168)
    || nat_eq a 127
    || (nat_eq a 169 && nat_eq b 254)
    || (nat_eq a 100 && (leb 64 b && leb b 127))

unfoldable pub is_private_ip : IpAddr → Bool
unfolding is_private_v4
is_private_ip (v4 a b c d) = is_private_v4 a b
is_private_ip (v6 a b c d e f g h) =
    (nat_eq a 0
      && (nat_eq b 0
          && (nat_eq c 0
              && (nat_eq d 0 && (nat_eq e 0 && (nat_eq f 0 && (nat_eq g 0 && nat_eq h 1)))))))
    || nat_eq (bit_and a 0xfe00) 0xfc00
    || nat_eq (bit_and a 0xffc0) 0xfe80

unfoldable pub is_private_proxy_peer : IpAddr → Bool
unfolding canonicalize is_private_ip
is_private_proxy_peer ip = is_private_ip (canonicalize ip)

-- The header's address, if the peer may speak for a client.
abbrev from_header : Option IpAddr → IpAddr → IpAddr
from_header none peer = peer
from_header (some real) peer = if is_private_proxy_peer peer then canonicalize real else peer

unfoldable pub extract_client_ip :
    (Bytes → Option IpAddr) → Option Bytes → Option IpAddr → Option IpAddr
unfolding canonicalize is_private_proxy_peer
extract_client_ip parse real_ip_header none = none
extract_client_ip parse real_ip_header (some peer) =
    some (from_header (and_then real_ip_header parse) (canonicalize peer))
