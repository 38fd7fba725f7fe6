-- ===== src/Net/Address.antt =====
-- `std::net::IpAddr`: four octets, or eight 16-bit segments.
use factbook_rs.Prelude.{ℕ, Bool, true, false, ◌&&◌, ◌≡◌, ◌↔◌, arith, ◌==◌}
use factbook_rs.Prelude.Keyed.{Eq}

pub record Ipv4Addr : Type 0 where
  pub a : ℕ
  pub b : ℕ
  pub c : ℕ
  pub d : ℕ

pub record Ipv6Addr : Type 0 where
  pub s0 : ℕ
  pub s1 : ℕ
  pub s2 : ℕ
  pub s3 : ℕ
  pub s4 : ℕ
  pub s5 : ℕ
  pub s6 : ℕ
  pub s7 : ℕ

pub data IpAddr : Type 0 where
  v4 : Ipv4Addr → IpAddr
  v6 : Ipv6Addr → IpAddr

unfoldable pub v4_eq : Ipv4Addr → Ipv4Addr → Bool
v4_eq x y = x.a == y.a && (x.b == y.b && (x.c == y.c && x.d == y.d))

unfoldable pub v6_eq : Ipv6Addr → Ipv6Addr → Bool
v6_eq x y =
    (x.s0 == y.s0 && (x.s1 == y.s1 && (x.s2 == y.s2 && x.s3 == y.s3)))
    && (x.s4 == y.s4 && (x.s5 == y.s5 && (x.s6 == y.s6 && x.s7 == y.s7)))

unfoldable pub address_eq : IpAddr → IpAddr → Bool
unfolding v4_eq v6_eq
address_eq (v4 x) (v4 y) = v4_eq x y
address_eq (v6 x) (v6 y) = v6_eq x y
address_eq _ _ = false

pub v4_eq_iff : (x y : Ipv4Addr) → (v4_eq x y ≡ true) ↔ (x ≡ y)
unfolding v4_eq
v4_eq_iff x y = ground arith

pub v6_eq_iff : (x y : Ipv6Addr) → (v6_eq x y ≡ true) ↔ (x ≡ y)
unfolding v6_eq
v6_eq_iff x y = ground arith

pub address_eq_iff : (x y : IpAddr) → (address_eq x y ≡ true) ↔ (x ≡ y)
unfolding address_eq
address_eq_iff (v4 x) (v4 y) = ground (arith, v4_eq_iff x y)
address_eq_iff (v6 x) (v6 y) = ground (arith, v6_eq_iff x y)
address_eq_iff _ _ = ground arith

instance abbrev pub IpAddr-Eq : Eq IpAddr
IpAddr-Eq = record { beq = address_eq; beq_iff = address_eq_iff }
