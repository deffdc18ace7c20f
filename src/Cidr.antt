-- ===== src/Cidr.antt =====
-- src/backend/wg/tools/cidr.rs: normal forms of prefix sets and set difference on prefixes.
-- This file has the operations on single prefixes, `Normalize` and `Exclude` those on sets.
-- A `u8` prefix length and the `u32`/`u128` values of addresses are natural numbers.
pub mod Mask
pub mod Covers
pub mod Halves
pub mod Split
pub mod Normalize
pub mod Exclude
use r_wg.Base.{
  ℕ, ◌+◌, ◌-◌, ◌*◌, ◌%◌, ◌^◌, min, bit_and, Bool, true, false, not, ◌&&◌, ◌||◌, Option, none, some,
  ltb, ◌==◌, if◌then◌else◌,
}
use Prim.Native.String.{String}
use r_wg.Net.{IpAddr, v4, v6, is_ipv4, AllowedIp, allowed_eq, ip_eq}

-- src/backend/wg/tools/mod.rs
pub data ToolError : Type 0 where
  parse_token : String → String → ToolError
  invalid_target : String → ToolError
  missing_port : ToolError
  runtime : String → ToolError
  too_many_results : ℕ → ℕ → ToolError

-- `==` of two Booleans.
abbrev pub bool_eq : Bool → Bool → Bool
bool_eq true b = b
bool_eq false b = not b

unfoldable pub apply_v4_mask : ℕ → ℕ → ℕ
apply_v4_mask raw cidr =
    if cidr == 0 then 0 else bit_and raw ((2 ^ 32 - 1) * 2 ^ (32 - cidr) % 2 ^ 32)

unfoldable pub apply_v6_mask : ℕ → ℕ → ℕ
apply_v6_mask raw cidr =
    if cidr == 0 then 0 else bit_and raw ((2 ^ 128 - 1) * 2 ^ (128 - cidr) % 2 ^ 128)

unfoldable pub apply_mask : IpAddr → ℕ → IpAddr
apply_mask (v4 addr) cidr = v4 (apply_v4_mask addr cidr)
apply_mask (v6 addr) cidr = v6 (apply_v6_mask addr cidr)

abbrev pub max_bits : IpAddr → ℕ
max_bits (v4 _) = 32
max_bits (v6 _) = 128

unfoldable pub host_increment : IpAddr → ℕ → ℕ
host_increment addr cidr =
    let host_bits = max_bits addr - cidr in if host_bits == 0 then 0 else 2 ^ host_bits % 2 ^ 128

-- `saturating_add`; the offset of an IPv4 address is cut to 32 bits first.
unfoldable pub add_offset : IpAddr → ℕ → IpAddr
add_offset (v4 addr) offset = v4 (min (addr + offset % 2 ^ 32) (2 ^ 32 - 1))
add_offset (v6 addr) offset = v6 (min (addr + offset) (2 ^ 128 - 1))

unfoldable pub canonicalize : AllowedIp → AllowedIp
canonicalize p = record { addr = apply_mask p.addr p.cidr; cidr = p.cidr }

unfoldable pub contains_prefix : AllowedIp → AllowedIp → Bool
contains_prefix container candidate =
    if not (bool_eq (is_ipv4 container.addr) (is_ipv4 candidate.addr))
      || ltb candidate.cidr container.cidr
    then false
    else ip_eq (canonicalize container).addr (apply_mask candidate.addr container.cidr)

unfoldable pub overlaps : AllowedIp → AllowedIp → Bool
overlaps left right =
    if not (bool_eq (is_ipv4 left.addr) (is_ipv4 right.addr))
    then false
    else let common = min left.cidr right.cidr in
      ip_eq (apply_mask left.addr common) (apply_mask right.addr common)

addr_key_gt : IpAddr → ℕ → IpAddr → ℕ → Bool
addr_key_gt (v4 a) m (v4 b) n = ltb b a || (a == b && ltb n m)
addr_key_gt (v6 a) m (v6 b) n = ltb b a || (a == b && ltb n m)
addr_key_gt (v4 a) m (v6 b) n = false
addr_key_gt (v6 a) m (v4 b) n = true

-- `prefix_sort_key(left, right) == Ordering::Greater`, all that the code uses of the order.
unfoldable pub key_gt : AllowedIp → AllowedIp → Bool
unfolding addr_key_gt
key_gt left right = addr_key_gt left.addr left.cidr right.addr right.cidr

unfoldable pub split_children : AllowedIp → AllowedIp × AllowedIp
split_children p =
    let next_cidr = p.cidr + 1 in
    let left = apply_mask p.addr next_cidr in
    (
      record { addr = left; cidr = next_cidr },
      record { addr = add_offset left (host_increment p.addr next_cidr); cidr = next_cidr },
    )

unfoldable pub ordered : AllowedIp → AllowedIp → AllowedIp × AllowedIp
ordered a b = if key_gt a b then (b, a) else (a, b)

-- The parent of two canonical siblings, if they are its two halves.
unfoldable pub parent_of : AllowedIp → AllowedIp → Option AllowedIp
parent_of left right =
    if allowed_eq left right
    then none
    else let parent : AllowedIp = record {
      addr = apply_mask left.addr (left.cidr - 1);
      cidr = left.cidr - 1;
    } in
      let (child_a, child_b) = split_children parent in
      let children = ordered child_a child_b in
      let inputs = ordered left right in
      if (contains_prefix parent left && contains_prefix parent right)
        && (allowed_eq children.0 inputs.0 && allowed_eq children.1 inputs.1)
      then some parent
      else none

unfoldable pub sibling_parent : AllowedIp → AllowedIp → Option AllowedIp
sibling_parent left right =
    if not (bool_eq (is_ipv4 left.addr) (is_ipv4 right.addr))
      || (not (left.cidr == right.cidr) || left.cidr == 0)
    then none
    else parent_of (canonicalize left) (canonicalize right)
