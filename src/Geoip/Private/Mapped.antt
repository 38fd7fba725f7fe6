-- ===== src/Geoip/Private/Mapped.antt =====
-- The two families agree on an IPv4 address.
use factbook_rs.Geoip.Private.{is_private, is_private_v4, is_private_v6, to_ipv4_mapped}
use factbook_rs.Net.Address.{Ipv4Addr, Ipv6Addr, v4, v6}
use factbook_rs.Prelude.{ℕ, ◌+◌, ◌*◌, ◌/◌, ◌%◌, ◌<◌, ◌≡◌, some, arith}

-- the four octets are bytes
abbrev pub IsOctets : Ipv4Addr → Type 0
IsOctets x = (x.a < 256) × (x.b < 256) × (x.c < 256) × (x.d < 256)

-- `::ffff:a.b.c.d`
abbrev pub mapped : Ipv4Addr → Ipv6Addr
mapped x = record {
  s0 = 0;
  s1 = 0;
  s2 = 0;
  s3 = 0;
  s4 = 0;
  s5 = 0xffff;
  s6 = x.a * 256 + x.b;
  s7 = x.c * 256 + x.d;
}

quotient : (a b : ℕ) → b < 256 → (a * 256 + b) / 256 ≡ a
quotient a b h = omega arith

remainder : (a b : ℕ) → b < 256 → (a * 256 + b) % 256 ≡ b
remainder a b h = omega arith

to_ipv4_mapped-mapped : (x : Ipv4Addr) → IsOctets x → to_ipv4_mapped (mapped x) ≡ some x
unfolding to_ipv4_mapped
to_ipv4_mapped-mapped x (a, b, c, d) =
    rw (quotient x.a x.b b, remainder x.a x.b b, quotient x.c x.d d, remainder x.c x.d d)

is_private_v6-mapped :
    (x : Ipv6Addr) (y : Ipv4Addr) → to_ipv4_mapped x ≡ some y → is_private_v6 x ≡ is_private_v4 y
unfolding is_private_v6
is_private_v6-mapped x y e = rw (is_private_v6, e)

-- An IPv4 address that is written as an IPv6 address is private if and only if it is itself.
pub is_private-mapped : (x : Ipv4Addr) → IsOctets x → is_private (v6 (mapped x)) ≡ is_private (v4 x)
unfolding is_private
is_private-mapped x fine = is_private_v6-mapped (mapped x) x (to_ipv4_mapped-mapped x fine)
