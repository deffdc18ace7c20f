-- ===== src/Net.antt =====
-- `std::net::IpAddr` as the code uses it, and `AllowedIp` of src/core/config/types.rs.
use r_wg.Base.{ℕ, ◌^◌, ◌<◌, ◌≤◌, ◌≡◌, ◌↔◌, Bool, true, false, ◌&&◌, arith, ◌==◌, ==_iff}

-- An address is its big-endian value: `u32::from` of an Ipv4Addr, `u128::from` of an Ipv6Addr.
pub data IpAddr : Type 0 where
  v4 : ℕ → IpAddr
  v6 : ℕ → IpAddr

abbrev pub is_ipv4 : IpAddr → Bool
is_ipv4 (v4 n) = true
is_ipv4 (v6 n) = false

abbrev pub is_ipv6 : IpAddr → Bool
is_ipv6 (v4 n) = false
is_ipv6 (v6 n) = true

-- 0.0.0.0 and ::
abbrev pub is_unspecified : IpAddr → Bool
is_unspecified (v4 n) = n == 0
is_unspecified (v6 n) = n == 0

abbrev pub ip_eq : IpAddr → IpAddr → Bool
ip_eq (v4 a) (v4 b) = a == b
ip_eq (v6 a) (v6 b) = a == b
ip_eq _ _ = false

pub record AllowedIp : Type 0 where
  pub addr : IpAddr
  pub cidr : ℕ

-- The derived `PartialEq`.
abbrev pub allowed_eq : AllowedIp → AllowedIp → Bool
allowed_eq p q = ip_eq p.addr q.addr && p.cidr == q.cidr

abbrev pub width : IpAddr → ℕ
width (v4 n) = 32
width (v6 n) = 128

abbrev pub raw : IpAddr → ℕ
raw (v4 n) = n
raw (v6 n) = n

-- The value fits the family's width.
abbrev pub IsIp : IpAddr → Type 0
IsIp (v4 n) = n < 2 ^ 32
IsIp (v6 n) = n < 2 ^ 128

-- What `AllowedIp::from_str` accepts.
pub record IsPrefix (p : AllowedIp) : Type 0 where
  pub ip : IsIp p.addr
  pub fits : p.cidr ≤ width p.addr

pub ip_eq_iff : (a b : IpAddr) → (ip_eq a b ≡ true) ↔ (a ≡ b)
ip_eq_iff (v4 a) (v4 b) = ground (arith, ==_iff a b)
ip_eq_iff (v4 a) (v6 b) = ground arith
ip_eq_iff (v6 a) (v4 b) = ground arith
ip_eq_iff (v6 a) (v6 b) = ground (arith, ==_iff a b)

pub allowed_eq_iff : (p q : AllowedIp) → (allowed_eq p q ≡ true) ↔ (p ≡ q)
allowed_eq_iff p q = ground (arith, ip_eq_iff p.addr q.addr, ==_iff p.cidr q.cidr)
