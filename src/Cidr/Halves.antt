-- ===== src/Cidr/Halves.antt =====
-- `split_children` of src/backend/wg/tools/cidr.rs: the two halves of a canonical prefix.
use native.Mathlib.Nat.{add-div_right, pow-suc, mul-div_left, pow-le-pow_right}
use r_wg.Base.{ℕ, suc, ◌+◌, ◌-◌, ◌*◌, ◌/◌, ◌^◌, ◌≤◌, ◌<◌, ◌≡◌, refl, sym, ap, ◌∙◌, arith}
use r_wg.Base.Bits.{pow_add}
use r_wg.Net.{IpAddr, v4, v6, AllowedIp, width, raw, IsIp, IsPrefix}
use r_wg.Cidr.{apply_mask, canonicalize, host_increment, add_offset}
use r_wg.Cidr.Mask.{with_raw, top, apply_mask-top, pow_pos}
use r_wg.Cidr.Covers.{IsCanonical}

-- A number below `2 ^ w` whose `s` low bits are clear leaves room for `2 ^ s` more.
room : (w s n : ℕ) → s ≤ w → n < 2 ^ w → n ≡ n / 2 ^ s * 2 ^ s → n + 2 ^ s ≤ 2 ^ w
room w s n h k e =
    let split : 2 ^ w ≡ 2 ^ (w - s) * 2 ^ s =
      ap (λ (t : ℕ). 2 ^ t) (omega arith) ∙ pow_add (w - s) s in
    let lt : n / 2 ^ s * 2 ^ s < 2 ^ (w - s) * 2 ^ s = omega (arith, split) in
    let quot : n / 2 ^ s < 2 ^ (w - s) = grind arith in
    let next : (n / 2 ^ s + 1) * 2 ^ s ≤ 2 ^ (w - s) * 2 ^ s = grind arith in omega (arith, split)

mul-pow-suc : (q s : ℕ) → q * 2 ^ suc s ≡ 2 * q * 2 ^ s
mul-pow-suc q s = omega (arith, ap (λ (t : ℕ). q * t) (pow-suc 2 s))

-- Its quotient one bit further down is even.
aligned_half : (n s : ℕ) → n ≡ n / 2 ^ suc s * 2 ^ suc s → n / 2 ^ s ≡ 2 * (n / 2 ^ suc s)
aligned_half n s e =
    let twice = e ∙ mul-pow-suc (n / 2 ^ suc s) s in
    ap (λ (t : ℕ). t / 2 ^ s) twice ∙ mul-div_left (2 * (n / 2 ^ suc s)) (pow_pos s)

pub upper_half : (n s : ℕ) → (n + 2 ^ s) / 2 ^ s ≡ n / 2 ^ s + 1
upper_half n s = add-div_right n (pow_pos s)

pub with_raw_self : (a : IpAddr) → with_raw a (raw a) ≡ a
with_raw_self (v4 n) = refl
with_raw_self (v6 n) = refl

pub raw-with_raw : (a : IpAddr) (n : ℕ) → raw (with_raw a n) ≡ n
raw-with_raw (v4 _) n = refl
raw-with_raw (v6 _) n = refl

-- A canonical address is its leading bits, and zeros.
pub raw_canonical :
    (p : AllowedIp)
    → IsPrefix p
    → IsCanonical p
    → raw p.addr ≡ top p.addr p.cidr * 2 ^ (width p.addr - p.cidr)
unfolding canonicalize
raw_canonical p h c =
    sym (ap (λ (q : AllowedIp). raw q.addr) c)
    ∙ ap raw (apply_mask-top p.addr p.cidr h.ip)
    ∙ raw-with_raw p.addr _

pub raw_bound : (a : IpAddr) → IsIp a → raw a < 2 ^ width a
raw_bound (v4 n) h = h
raw_bound (v6 n) h = h

-- An address that ends in zeros is canonical.
pub IsCanonical-intro :
    (p : AllowedIp) (q : ℕ)
    → IsIp p.addr
    → raw p.addr ≡ q * 2 ^ (width p.addr - p.cidr)
    → IsCanonical p
unfolding canonicalize top
IsCanonical-intro p q h e =
    let quot : top p.addr p.cidr ≡ q =
      ap (λ (t : ℕ). t / 2 ^ (width p.addr - p.cidr)) e ∙ mul-div_left q (pow_pos _) in
    let same : apply_mask p.addr p.cidr ≡ p.addr =
      apply_mask-top p.addr p.cidr h
      ∙ ap (with_raw p.addr) (ap (λ (t : ℕ). t * 2 ^ (width p.addr - p.cidr)) quot ∙ sym e)
      ∙ with_raw_self p.addr in
    λ i. record { addr = same i; cidr = p.cidr }

pub add_offset_lem :
    (a : IpAddr) (k : ℕ) → raw a + k < 2 ^ width a → add_offset a k ≡ with_raw a (raw a + k)
unfolding add_offset
add_offset_lem (v4 n) k h = ap v4 (omega arith)
add_offset_lem (v6 n) k h = ap v6 (omega arith)

host_increment_lem :
    (a : IpAddr) (c : ℕ) → 0 < c → c < width a → host_increment a c ≡ 2 ^ (width a - c)
unfolding host_increment
host_increment_lem (v4 n) c pos h =
    let small : 2 ^ (32 - c) ≤ 2 ^ 127 = pow-le-pow_right (omega arith) {j = 127} (omega arith) in
    ground arith
host_increment_lem (v6 n) c pos h =
    let small : 2 ^ (128 - c) ≤ 2 ^ 127 = pow-le-pow_right (omega arith) {j = 127} (omega arith) in
    ground arith

pub IsIp-with_raw : (a : IpAddr) (n : ℕ) → n < 2 ^ width a → IsIp (with_raw a n)
IsIp-with_raw (v4 _) n h = h
IsIp-with_raw (v6 _) n h = h

-- The prefix has one more bit to give away.
pub one_left : (w c : ℕ) → c < w → w - c ≡ suc (w - (c + 1))
one_left w c h = omega arith

half_lt : (s : ℕ) → 2 ^ s < 2 ^ suc s
half_lt s = omega (arith, pow-suc 2 s, pow_pos s)

module _ (p : AllowedIp) (h : IsPrefix p) (c : IsCanonical p) (lt : p.cidr < width p.addr) where
  pub top_next : top p.addr (p.cidr + 1) ≡ 2 * top p.addr p.cidr
  unfolding top
  top_next =
      let s = one_left (width p.addr) p.cidr lt in
      aligned_half (raw p.addr) (width p.addr - (p.cidr + 1)) (rw s at (raw_canonical p h c)) ∙ rw s

  pub raw_halved : raw p.addr ≡ top p.addr (p.cidr + 1) * 2 ^ (width p.addr - (p.cidr + 1))
  raw_halved =
      let s = one_left (width p.addr) p.cidr lt in
      rw s at (raw_canonical p h c)
      ∙ mul-pow-suc (top p.addr p.cidr) (width p.addr - (p.cidr + 1))
      ∙ ap (λ (t : ℕ). t * 2 ^ (width p.addr - (p.cidr + 1))) (sym top_next)

  -- The left half starts where the prefix does.
  pub left_addr : apply_mask p.addr (p.cidr + 1) ≡ p.addr
  left_addr =
      apply_mask-top p.addr (p.cidr + 1) h.ip
      ∙ ap (with_raw p.addr) (sym raw_halved)
      ∙ with_raw_self p.addr

  pub half_room : raw p.addr + 2 ^ (width p.addr - (p.cidr + 1)) < 2 ^ width p.addr
  half_room =
      let s = one_left (width p.addr) p.cidr lt in
      let e = raw_canonical p h c in
      let whole =
        room (width p.addr) (width p.addr - p.cidr) (raw p.addr) (omega arith)
          (raw_bound p.addr h.ip) (unfold top in e) in
      let less : 2 ^ (width p.addr - (p.cidr + 1)) < 2 ^ (width p.addr - p.cidr) =
        rw s (half_lt _) in
      omega arith

  -- The right half starts half a block further, if the halves are not single addresses.
  pub right_addr :
      p.cidr + 1 < width p.addr
      → add_offset p.addr (host_increment p.addr (p.cidr + 1))
        ≡ with_raw p.addr (raw p.addr + 2 ^ (width p.addr - (p.cidr + 1)))
  right_addr more =
      ap (add_offset p.addr) (host_increment_lem p.addr (p.cidr + 1) (omega arith) more)
      ∙ add_offset_lem p.addr _ half_room
