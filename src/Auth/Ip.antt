-- ===== src/Auth/Ip.antt =====
-- `std::net::IpAddr`: the octets of a v4 address, or the segments of a v6 address.
use executor_node.Prelude.{ℕ, Bool, true, false, ◌&&◌, ◌≡◌, ◌↔◌, nat_eq, arith, HasTest}

pub data IpAddr : Type 0 where
  v4 : (o0 o1 o2 o3 : ℕ) → IpAddr
  v6 : (s0 s1 s2 s3 s4 s5 s6 s7 : ℕ) → IpAddr

unfoldable pub ip_eq : IpAddr → IpAddr → Bool
ip_eq (v4 a b c d) (v4 a' b' c' d') = nat_eq a a' && (nat_eq b b' && (nat_eq c c' && nat_eq d d'))
ip_eq (v6 a b c d e f g h) (v6 a' b' c' d' e' f' g' h') =
    nat_eq a a'
    && (nat_eq b b'
        && (nat_eq c c'
            && (nat_eq d d' && (nat_eq e e' && (nat_eq f f' && (nat_eq g g' && nat_eq h h'))))))
ip_eq _ _ = false

pub ip_eq_iff : (a b : IpAddr) → (ip_eq a b ≡ true) ↔ (a ≡ b)
unfolding ip_eq
ip_eq_iff (v4 a b c d) (v4 a' b' c' d') = ground arith
ip_eq_iff (v4 a b c d) (v6 a' b' c' d' e' f' g' h') = ground arith
ip_eq_iff (v6 a b c d e f g h) (v4 a' b' c' d') = ground arith
ip_eq_iff (v6 a b c d e f g h) (v6 a' b' c' d' e' f' g' h') = ground arith

instance abbrev pub IpAddr_eq : HasTest IpAddr
IpAddr_eq = record { test = ip_eq; test_iff = ip_eq_iff }
