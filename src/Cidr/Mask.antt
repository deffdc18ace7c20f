-- ===== src/Cidr/Mask.antt =====
-- Masks of src/backend/wg/tools/cidr.rs as arithmetic: the leading `c` bits of an address are the
-- quotient of its value by `2 ^ (width - c)`.
use native.Mathlib.Nat.{one-le-pow, mul-div_left}
use r_wg.Base.{
  ℕ, zero, suc, ◌+◌, ◌-◌, ◌*◌, ◌/◌, ◌^◌, ◌≤◌, ◌<◌, ◌≡◌, refl, sym, ap, ◌∙◌, Bool, true, ◌&&◌, ◌==◌,
  leb, arith,
}
use r_wg.Base.Bits.{bit_and_shifted, div-pow-add}
use r_wg.Net.{IpAddr, v4, v6, is_ipv4, AllowedIp, ip_eq, width, raw, IsIp}
use r_wg.Cidr.{bool_eq, apply_v4_mask, apply_v6_mask, apply_mask, canonicalize, contains_prefix}

abbrev pub with_raw : IpAddr → ℕ → IpAddr
with_raw (v4 _) n = v4 n
with_raw (v6 _) n = v6 n

abbrev pub same_family : IpAddr → IpAddr → Bool
same_family a b = bool_eq (is_ipv4 a) (is_ipv4 b)

-- The leading `c` bits.
unfoldable pub top : IpAddr → ℕ → ℕ
top a c = raw a / 2 ^ (width a - c)

pub pow_pos : (n : ℕ) → 0 < 2 ^ n
pow_pos n = one-le-pow n 2 (omega arith)

v4_mask : (n c : ℕ) → n < 2 ^ 32 → apply_v4_mask n c ≡ n / 2 ^ (32 - c) * 2 ^ (32 - c)
unfolding apply_v4_mask
v4_mask n zero h = omega arith
v4_mask n (suc c) h = ground (arith, bit_and_shifted 32 (32 - suc c) n (omega arith) h)

v6_mask : (n c : ℕ) → n < 2 ^ 128 → apply_v6_mask n c ≡ n / 2 ^ (128 - c) * 2 ^ (128 - c)
unfolding apply_v6_mask
v6_mask n zero h = omega arith
v6_mask n (suc c) h = ground (arith, bit_and_shifted 128 (128 - suc c) n (omega arith) h)

-- Masking keeps the leading bits and clears the others.
pub apply_mask-top :
    (a : IpAddr) (c : ℕ) → IsIp a → apply_mask a c ≡ with_raw a (top a c * 2 ^ (width a - c))
unfolding apply_mask top
apply_mask-top (v4 n) c h = ap v4 (v4_mask n c h)
apply_mask-top (v6 n) c h = ap v6 (v6_mask n c h)

mul_cancel : (m n k : ℕ) → 0 < k → m * k ≡ n * k → m ≡ n
mul_cancel m n k pos e = sym (mul-div_left m pos) ∙ ap (λ (t : ℕ). t / k) e ∙ mul-div_left n pos

scaled_eq : (m n s : ℕ) → (m * 2 ^ s == n * 2 ^ s) ≡ (m == n)
scaled_eq m n s = ground (arith, mul_cancel m n (2 ^ s) (pow_pos s))

-- Masked addresses are equal exactly when family and leading bits are.
pub ip_eq-apply_mask :
    (a b : IpAddr) (c : ℕ)
    → IsIp a
    → IsIp b
    → ip_eq (apply_mask a c) (apply_mask b c) ≡ (same_family a b && top a c == top b c)
ip_eq-apply_mask (v4 m) (v4 n) c h k =
    rw (apply_mask-top (v4 m) c h, apply_mask-top (v4 n) c k) (scaled_eq _ _ (32 - c))
ip_eq-apply_mask (v4 m) (v6 n) c h k = rw (apply_mask-top (v4 m) c h, apply_mask-top (v6 n) c k)
ip_eq-apply_mask (v6 m) (v4 n) c h k = rw (apply_mask-top (v6 m) c h, apply_mask-top (v4 n) c k)
ip_eq-apply_mask (v6 m) (v6 n) c h k =
    rw (apply_mask-top (v6 m) c h, apply_mask-top (v6 n) c k) (scaled_eq _ _ (128 - c))

-- The address is in the prefix: same family, same leading `cidr` bits.
unfoldable pub covers : AllowedIp → IpAddr → Bool
covers p a = same_family p.addr a && top p.addr p.cidr == top a p.cidr

pub contains_prefix_lem :
    (p q : AllowedIp)
    → IsIp p.addr
    → IsIp q.addr
    → contains_prefix p q ≡ (leb p.cidr q.cidr && covers p q.addr)
unfolding contains_prefix canonicalize covers
contains_prefix_lem p q h k = rw (ip_eq-apply_mask p.addr q.addr p.cidr h k) (ground arith)

-- Fewer leading bits are a quotient of more.
pub top_coarser : (a : IpAddr) (c d : ℕ) → c ≤ d → d ≤ width a → top a c ≡ top a d / 2 ^ (d - c)
unfolding top
top_coarser a c d h k =
    let e : width a - c ≡ (width a - d) + (d - c) = omega arith in
    rw e (div-pow-add (raw a) (width a - d) (d - c))

same_width : (a b : IpAddr) → same_family a b ≡ true → width a ≡ width b
same_width (v4 m) (v4 n) h = refl
same_width (v4 m) (v6 n) h = cc
same_width (v6 m) (v4 n) h = cc
same_width (v6 m) (v6 n) h = refl

-- Agreement on more leading bits is agreement on fewer.
pub top_mono :
    (a b : IpAddr) (c d : ℕ)
    → c ≤ d
    → d ≤ width a
    → same_family a b ≡ true
    → top a d ≡ top b d
    → top a c ≡ top b c
top_mono a b c d h k f e =
    let w = same_width a b f in
    top_coarser a c d h k
    ∙ ap (λ (t : ℕ). t / 2 ^ (d - c)) e
    ∙ sym (top_coarser b c d h (omega arith))
