-- ===== src/Geoip/Private.antt =====
-- src/geoip/private.rs: the addresses that are never looked up. The predicates of `Ipv4Addr` and
-- `Ipv6Addr` that it calls are the standard library's; a mask is the division and the remainder
-- that keep its bits.
pub mod Mapped
use factbook_rs.Net.Address.{Ipv4Addr, Ipv6Addr, IpAddr, v4, v6, v4_eq, v6_eq}
use factbook_rs.Prelude.{
  ℕ, ◌/◌, ◌%◌, Bool, ◌&&◌, ◌||◌, Option, none, some, leb, ◌==◌, if◌then◌else◌,
}

-- `Ipv4Addr::is_private`, `is_link_local`, `is_multicast` and `is_documentation`
abbrev in_private_use : Ipv4Addr → Bool
in_private_use x =
    x.a == 10 || (x.a == 172 && (leb 16 x.b && leb x.b 31)) || (x.a == 192 && x.b == 168)

abbrev is_link_local : Ipv4Addr → Bool
is_link_local x = x.a == 169 && x.b == 254

abbrev is_multicast : Ipv4Addr → Bool
is_multicast x = leb 224 x.a && leb x.a 239

abbrev is_documentation : Ipv4Addr → Bool
is_documentation x =
    (x.a == 192 && (x.b == 0 && x.c == 2))
    || (x.a == 198 && (x.b == 51 && x.c == 100))
    || (x.a == 203 && (x.b == 0 && x.c == 113))

-- `octets[1] & 0b1100_0000 == 0b0100_0000`
unfoldable pub is_shared_v4 : Ipv4Addr → Bool
is_shared_v4 x = x.a == 100 && (x.b / 64 % 4) == 1

-- `octets[0] & 0b1111_0000 == 0b1111_0000`
unfoldable pub is_reserved_v4 : Ipv4Addr → Bool
is_reserved_v4 x = (x.a / 16 % 16) == 15

abbrev broadcast : Ipv4Addr
broadcast = record { a = 255; b = 255; c = 255; d = 255 }

abbrev unspecified : Ipv4Addr
unspecified = record { a = 0; b = 0; c = 0; d = 0 }

unfoldable pub is_private_v4 : Ipv4Addr → Bool
is_private_v4 x =
    in_private_use x
    || x.a == 127
    || is_link_local x
    || v4_eq x broadcast
    || is_multicast x
    || v4_eq x unspecified
    || is_documentation x
    || is_shared_v4 x
    || is_reserved_v4 x

-- `Ipv6Addr::to_ipv4_mapped`
unfoldable pub to_ipv4_mapped : Ipv6Addr → Option Ipv4Addr
to_ipv4_mapped x =
    if x.s0 == 0 && x.s1 == 0 && x.s2 == 0 && x.s3 == 0 && x.s4 == 0 && x.s5 == 0xffff
    then some (record { a = x.s6 / 256; b = x.s6 % 256; c = x.s7 / 256; d = x.s7 % 256 })
    else none

abbrev localhost : ℕ → Ipv6Addr
localhost last = record { s0 = 0; s1 = 0; s2 = 0; s3 = 0; s4 = 0; s5 = 0; s6 = 0; s7 = last }

unfoldable pub is_documentation_v6 : Ipv6Addr → Bool
is_documentation_v6 x = x.s0 == 0x2001 && x.s1 == 0x0db8

-- the ranges of IPv6, for an address that is no IPv4 address in a longer form
unfoldable pub in_private_v6 : Ipv6Addr → Bool
in_private_v6 x =
    v6_eq x (localhost 1)
    || v6_eq x (localhost 0)
    || (x.s0 / 256 % 256) == 0xff
    || (x.s0 / 512 % 128) == 0x7e
    || (x.s0 / 64 % 1024) == 0x3fa
    || is_documentation_v6 x

unfoldable pub is_private_v6 : Ipv6Addr → Bool
is_private_v6 x = elim (to_ipv4_mapped x) [ some y ↦ is_private_v4 y | none ↦ in_private_v6 x ]

unfoldable pub is_private : IpAddr → Bool
unfolding is_private_v6
is_private (v4 x) = is_private_v4 x
is_private (v6 x) = is_private_v6 x
