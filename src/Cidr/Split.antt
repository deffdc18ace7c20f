-- ===== src/Cidr/Split.antt =====
-- Which addresses the two halves of a prefix cover (`split_children` of
-- src/backend/wg/tools/cidr.rs).
use native.Mathlib.Nat.{add-zero}
use r_wg.Base.{
  ℕ, ◌+◌, ◌-◌, ◌*◌, ◌/◌, ◌^◌, ◌<◌, ◌≡◌, refl, sym, ap, ◌∙◌, ◌⊎◌, inl, inr, true, ◌||◌, arith,
  Bool_ext,
}
use r_wg.Net.{IpAddr, v4, v6, AllowedIp, width, raw, IsIp, IsPrefix}
use r_wg.Cidr.{apply_mask, split_children, host_increment, add_offset}
use r_wg.Cidr.Mask.{with_raw, same_family, top, covers, top_coarser, top_mono}
use r_wg.Cidr.Covers.{IsCanonical, covers-parts, covers-intro, width_of_family}
use r_wg.Cidr.Halves.{
  IsCanonical-intro, IsIp-with_raw, raw-with_raw, upper_half, half_room, raw_halved, top_next,
  left_addr, right_addr, add_offset_lem, raw_bound, with_raw_self,
}

abbrev pub lower : AllowedIp → AllowedIp
lower p = (split_children p).0

abbrev pub upper : AllowedIp → AllowedIp
upper p = (split_children p).1

pub lower_cidr : (p : AllowedIp) → (lower p).cidr ≡ p.cidr + 1
unfolding split_children
lower_cidr p = refl

pub upper_cidr : (p : AllowedIp) → (upper p).cidr ≡ p.cidr + 1
unfolding split_children
upper_cidr p = refl

width-with_raw : (a : IpAddr) (n : ℕ) → width (with_raw a n) ≡ width a
width-with_raw (v4 _) n = refl
width-with_raw (v6 _) n = refl

with_raw_family : (a b : IpAddr) (n : ℕ) → same_family (with_raw a n) b ≡ same_family a b
with_raw_family (v4 _) b n = refl
with_raw_family (v6 _) b n = refl

no_increment : (a : IpAddr) (c : ℕ) → c ≡ width a → host_increment a c ≡ 0
unfolding host_increment
no_increment (v4 n) c e = ground arith
no_increment (v6 n) c e = ground arith

add_offset_zero : (a : IpAddr) → IsIp a → add_offset a 0 ≡ a
add_offset_zero a h =
    add_offset_lem a 0 (let b = raw_bound a h in omega arith)
    ∙ ap (with_raw a) (add-zero (raw a))
    ∙ with_raw_self a

half_top : (a : IpAddr) (c : ℕ) → c < width a → top a c ≡ top a (c + 1) / 2
half_top a c h =
    top_coarser a c (c + 1) (omega arith) (omega arith)
    ∙ ap (λ (n : ℕ). top a (c + 1) / 2 ^ n) (let e : c + 1 - c ≡ 1 = omega arith in e)

module _ (p : AllowedIp) (h : IsPrefix p) (c : IsCanonical p) (lt : p.cidr < width p.addr) where
  pub lower_lem : lower p ≡ record { addr = p.addr; cidr = p.cidr + 1 }
  unfolding split_children
  lower_lem = λ i. record { addr = left_addr p h c lt i; cidr = p.cidr + 1 }

  pub lower-IsPrefix : IsPrefix (lower p)
  lower-IsPrefix = rw lower_lem (record { ip = h.ip; fits = omega arith })

  pub lower-IsCanonical : IsCanonical (lower p)
  lower-IsCanonical = rw lower_lem (IsCanonical-intro _ _ h.ip (raw_halved p h c lt))

  -- Halves of single addresses: the step is 0, and the second half is the first.
  pub upper_single : p.cidr + 1 ≡ width p.addr → upper p ≡ lower p
  unfolding split_children
  upper_single e = λ i. record {
    addr =
        (ap (add_offset (apply_mask p.addr (p.cidr + 1))) (no_increment p.addr (p.cidr + 1) e)
            ∙ add_offset_zero (apply_mask p.addr (p.cidr + 1)) (rw (left_addr p h c lt) h.ip))
          i;
    cidr = p.cidr + 1;
  }

  pub upper_lem :
      p.cidr + 1 < width p.addr
      → upper p ≡ record {
        addr = with_raw p.addr (raw p.addr + 2 ^ (width p.addr - (p.cidr + 1)));
        cidr = p.cidr + 1;
      }
  unfolding split_children
  upper_lem more = λ i. record {
    addr =
        (ap (λ (a : IpAddr). add_offset a (host_increment p.addr (p.cidr + 1))) (left_addr p h c lt)
            ∙ right_addr p h c lt more)
          i;
    cidr = p.cidr + 1;
  }

  upper-IsIp :
      p.cidr + 1 < width p.addr
      → IsIp (with_raw p.addr (raw p.addr + 2 ^ (width p.addr - (p.cidr + 1))))
  upper-IsIp more = IsIp-with_raw p.addr _ (half_room p h c lt)

  split_at : (p.cidr + 1 ≡ width p.addr) ⊎ (p.cidr + 1 < width p.addr)
  split_at = omega arith

  pub upper-IsPrefix : IsPrefix (upper p)
  upper-IsPrefix = elim split_at [
    | inl e ↦ rw (upper_single e) lower-IsPrefix
    | inr more ↦
        rw (upper_lem more)
          (record { ip = upper-IsIp more; fits = rw (width-with_raw p.addr) (omega arith) })
  ]

  pub width-lower : width (lower p).addr ≡ width p.addr
  width-lower = ap (λ (q : AllowedIp). width q.addr) lower_lem

  pub width-upper : width (upper p).addr ≡ width p.addr
  width-upper = elim split_at [
    | inl e ↦ ap (λ (q : AllowedIp). width q.addr) (upper_single e) ∙ width-lower
    | inr more ↦ ap (λ (q : AllowedIp). width q.addr) (upper_lem more) ∙ width-with_raw p.addr _
  ]

  upper_raw :
      raw p.addr + 2 ^ (width p.addr - (p.cidr + 1))
      ≡ (2 * top p.addr p.cidr + 1) * 2 ^ (width p.addr - (p.cidr + 1))
  upper_raw = omega (
    arith,
    raw_halved p h c lt,
    ap (λ (t : ℕ). t * 2 ^ (width p.addr - (p.cidr + 1))) (top_next p h c lt),
  )

  pub upper-IsCanonical : IsCanonical (upper p)
  upper-IsCanonical = elim split_at [
    | inl e ↦ rw (upper_single e) lower-IsCanonical
    | inr more ↦ rw (upper_lem more) (
        IsCanonical-intro _ (2 * top p.addr p.cidr + 1) (upper-IsIp more)
          (raw-with_raw p.addr _ ∙ rw (width-with_raw p.addr) upper_raw))
  ]

  -- The leading bits of the halves.
  upper_top :
      top (with_raw p.addr (raw p.addr + 2 ^ (width p.addr - (p.cidr + 1)))) (p.cidr + 1)
      ≡ 2 * top p.addr p.cidr + 1
  unfolding top
  upper_top =
      rw (raw-with_raw p.addr _, width-with_raw p.addr _)
        (upper_half (raw p.addr) (width p.addr - (p.cidr + 1))
          ∙ ap (λ (t : ℕ). t + 1) (top_next p h c lt))

  module _ (a : IpAddr) where
    -- The halves cover nothing that the prefix does not.
    pub covers_of_lower : covers (lower p) a ≡ true → covers p a ≡ true
    covers_of_lower k =
        let (f, e) = covers-parts _ a (rw lower_lem at k) in
        covers-intro p a f (top_mono p.addr a p.cidr (p.cidr + 1) (omega arith) (omega arith) f e)

    covers_of_upper_lem : p.cidr + 1 < width p.addr → covers (upper p) a ≡ true → covers p a ≡ true
    covers_of_upper_lem more k =
        let (f, e) = covers-parts _ a (rw (upper_lem more) at k) in
        let g = sym (with_raw_family p.addr a _) ∙ f in
        let w = width_of_family p.addr a g in
        let half = half_top a p.cidr (omega arith) in covers-intro p a g (omega (arith, upper_top))

    pub covers_of_upper : covers (upper p) a ≡ true → covers p a ≡ true
    covers_of_upper k = elim split_at [
      | inl e ↦ covers_of_lower (rw (upper_single e) at k)
      | inr more ↦ covers_of_upper_lem more k
    ]

    -- Between them they cover all of it, unless they are single addresses.
    pub halves_cover :
        p.cidr + 1 < width p.addr
        → covers p a ≡ true
        → (covers (lower p) a ≡ true) ⊎ (covers (upper p) a ≡ true)
    halves_cover more k =
        let (f, e) = covers-parts p a k in
        let w = width_of_family p.addr a f in
        let half = half_top a p.cidr (omega arith) in
        let choice : (2 * top p.addr p.cidr ≡ top a (p.cidr + 1))
            ⊎ (2 * top p.addr p.cidr + 1 ≡ top a (p.cidr + 1)) =
          omega arith in
        elim choice [
          | inl d ↦ inl (rw lower_lem (covers-intro _ a f (top_next p h c lt ∙ d)))
          | inr d ↦ inr (
              rw (upper_lem more)
                (covers-intro _ a (with_raw_family p.addr a _ ∙ f) (upper_top ∙ d)))
        ]

    pub covers_halves :
        p.cidr + 1 < width p.addr → covers p a ≡ (covers (lower p) a || covers (upper p) a)
    covers_halves more =
        Bool_ext _ _ (λ k. ground (arith, halves_cover more k))
          (λ k. ground (arith, covers_of_lower, covers_of_upper))
