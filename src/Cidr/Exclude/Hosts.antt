-- ===== src/Cidr/Exclude/Hosts.antt =====
-- Single addresses in `subtract_prefix` of src/backend/wg/tools/cidr.rs: `host_increment` is 0 where
-- the step between two addresses is 1.
use r_wg.Base.{
  ℕ, ◌+◌, ◌-◌, ◌%◌, ◌≤◌, ◌≡◌, refl, ap, ◌∙◌, true, false, arith, List, length, &&_iff, ==_refl,
}
use r_wg.Base.Result.{ok}
use r_wg.Net.{IpAddr, v4, v6, AllowedIp, width, raw, IsPrefix}
use r_wg.Cidr.{overlaps, contains_prefix, max_bits}
use r_wg.Cidr.Mask.{covers, top, same_family, with_raw, contains_prefix_lem}
use r_wg.Cidr.Covers.{IsNormal, overlaps_of_shared, covers-intro}
use r_wg.Cidr.Halves.{raw_canonical}
use r_wg.Cidr.Split.{lower, upper, lower_lem, upper_single}
use r_wg.Cidr.Exclude.{within, subtract_bits, subtract_prefix}
use r_wg.Cidr.Exclude.Prefix.{max_bits_lem}

-- The prefix of one address.
abbrev pub host : IpAddr → AllowedIp
host a = record { addr = a; cidr = width a }

-- The address after it.
abbrev pub next_addr : IpAddr → IpAddr
next_addr a = with_raw a (raw a + 1)

family_refl : (a : IpAddr) → same_family a a ≡ true
family_refl (v4 n) = refl
family_refl (v6 n) = refl

covers_self : (p : AllowedIp) → covers p p.addr ≡ true
unfolding covers
covers_self p = (&&_iff _ _).1 (family_refl p.addr, ==_refl (top p.addr p.cidr))

next_family : (a : IpAddr) → same_family a (next_addr a) ≡ true
next_family (v4 n) = refl
next_family (v6 n) = refl

next_top : (a : IpAddr) (c : ℕ) → width a - c ≡ 1 → raw a % 2 ≡ 0 → top a c ≡ top (next_addr a) c
unfolding top
next_top (v4 n) c e h = rw e (omega arith)
next_top (v6 n) c e h = rw e (omega arith)

next_outside : (a : IpAddr) → covers (host a) (next_addr a) ≡ false
unfolding covers top
next_outside (v4 n) = ground arith
next_outside (v6 n) = ground arith

within_fits : (limit : ℕ) (out : List AllowedIp) → length out ≤ limit → within limit out ≡ ok out
within_fits limit out h = ground arith

module _ (p : AllowedIp) (h : IsNormal p) (pair : p.cidr + 1 ≡ width p.addr) where
  host-IsPrefix : IsPrefix (host p.addr)
  host-IsPrefix = record { ip = h.prefix.ip; fits = omega arith }

  lower-host : lower p ≡ host p.addr
  lower-host =
      lower_lem p h.prefix h.canonical (omega arith)
      ∙ (λ i. record { addr = p.addr; cidr = pair i })

  upper-host : upper p ≡ host p.addr
  upper-host = upper_single p h.prefix h.canonical (omega arith) pair ∙ lower-host

  overlap_self : overlaps (host p.addr) (host p.addr) ≡ true
  overlap_self =
      overlaps_of_shared (host p.addr) (host p.addr) p.addr host-IsPrefix host-IsPrefix
        (covers_self (host p.addr)) (covers_self (host p.addr))

  overlap : overlaps p (host p.addr) ≡ true
  overlap =
      overlaps_of_shared p (host p.addr) p.addr h.prefix host-IsPrefix (covers_self p)
        (covers_self (host p.addr))

  not_inside : contains_prefix (host p.addr) p ≡ false
  not_inside = contains_prefix_lem (host p.addr) p h.prefix.ip h.prefix.ip ∙ ground arith

  subtract_first :
      (out : List AllowedIp) (limit : ℕ)
      → length out ≤ limit
      → subtract_prefix p (host p.addr) out limit ≡ ok out
  unfolding subtract_prefix subtract_bits
  subtract_first out limit fits =
      let bits : max_bits p.addr - p.cidr ≡ 1 =
        ap (λ (w : ℕ). w - p.cidr) (max_bits_lem p.addr) ∙ omega arith in
      rw bits (
        rw (overlap, not_inside, lower-host, upper-host, overlap_self) (within_fits limit out fits))

  -- The lost address: in the block, and not the one taken away.
  pub second_covered :
      (covers p (next_addr p.addr) ≡ true) × (covers (host p.addr) (next_addr p.addr) ≡ false)
  second_covered =
      let e : width p.addr - p.cidr ≡ 1 = omega arith in
      let even = rw e at (raw_canonical p h.prefix h.canonical) in
      (
        covers-intro p (next_addr p.addr) (next_family p.addr)
            (next_top p.addr p.cidr e (omega arith)),
        next_outside p.addr,
      )

-- A bug: taking the first address from a block of two leaves nothing, though the block's second
-- address is not the one taken away.
pub subtract_first_loses_second :
    (p : AllowedIp) (out : List AllowedIp) (limit : ℕ)
    → IsNormal p
    → p.cidr + 1 ≡ width p.addr
    → length out ≤ limit
    → (subtract_prefix p (host p.addr) out limit ≡ ok out)
      × (covers p (next_addr p.addr) ≡ true)
      × (covers (host p.addr) (next_addr p.addr) ≡ false)
subtract_first_loses_second p out limit h pair fits =
    let (inside, outside) = second_covered p h pair in
    (subtract_first p h pair out limit fits, inside, outside)
