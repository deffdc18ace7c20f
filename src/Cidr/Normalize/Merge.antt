-- ===== src/Cidr/Normalize/Merge.antt =====
-- Masked prefixes, and the merging of two siblings into their parent.
use native.Mathlib.Nat.{div-mul-le_self, mul-div_left}
use mathlib.Core.Bool.{false≢true}
use r_wg.Base.{
  ℕ, ◌+◌, ◌-◌, ◌*◌, ◌/◌, ◌^◌, ◌<◌, ◌≡◌, ◌≢◌, refl, sym, ◌∙◌, subst, ◌⊎◌, inl, inr, true, false, not,
  ◌&&◌, ◌||◌, ◌==◌, &&_iff, arith, Bool-cases, Option-cases, some, List, [], ◌∷◌, All,
}
use r_wg.Net.{IpAddr, v4, v6, AllowedIp, allowed_eq, allowed_eq_iff, width, raw, IsIp, IsPrefix}
use r_wg.Cidr.{
  canonicalize, apply_mask, contains_prefix, sibling_parent, parent_of, ordered, is_ipv4, bool_eq,
}
use r_wg.Cidr.Mask.{with_raw, top, covers, apply_mask-top, same_family, pow_pos}
use r_wg.Cidr.Covers.{covered, IsNormal, IsBlock, IsCanonical}
use r_wg.Cidr.Halves.{IsCanonical-intro, IsIp-with_raw, raw-with_raw, raw_bound}
use r_wg.Cidr.Split.{lower, upper, covers_halves, upper_single}
use r_wg.Cidr.Normalize.{merge_pass}

width-with_raw : (a : IpAddr) (n : ℕ) → width (with_raw a n) ≡ width a
width-with_raw (v4 _) n = refl
width-with_raw (v6 _) n = refl

with_raw_family : (a b : IpAddr) (n : ℕ) → same_family (with_raw a n) b ≡ same_family a b
with_raw_family (v4 _) b n = refl
with_raw_family (v6 _) b n = refl

masked_bound : (a : IpAddr) (c : ℕ) → IsIp a → top a c * 2 ^ (width a - c) < 2 ^ width a
unfolding top
masked_bound a c h =
    let le = div-mul-le_self (raw a) (2 ^ (width a - c)) in let lt = raw_bound a h in omega arith

canonicalize_lem :
    (p : AllowedIp)
    → IsPrefix p
    → canonicalize p ≡ record {
      addr = with_raw p.addr (top p.addr p.cidr * 2 ^ (width p.addr - p.cidr));
      cidr = p.cidr;
    }
unfolding canonicalize
canonicalize_lem p h = λ i. record { addr = apply_mask-top p.addr p.cidr h.ip i; cidr = p.cidr }

-- The canonical form is canonical, and covers the same addresses.
pub canonicalize-IsNormal : (p : AllowedIp) → IsPrefix p → IsNormal (canonicalize p)
canonicalize-IsNormal p h =
    let ip = IsIp-with_raw p.addr _ (masked_bound p.addr p.cidr h.ip) in
    rw (canonicalize_lem p h) (record {
      prefix = record { ip = ip; fits = rw (width-with_raw p.addr _) h.fits };
      canonical =
          IsCanonical-intro _ (top p.addr p.cidr) ip
            (rw (raw-with_raw p.addr _, width-with_raw p.addr _));
    })

masked_top : (a : IpAddr) (c : ℕ) → top (with_raw a (top a c * 2 ^ (width a - c))) c ≡ top a c
masked_top (v4 n) c = unfold top in mul-div_left (n / 2 ^ (32 - c)) (pow_pos (32 - c))
masked_top (v6 n) c = unfold top in mul-div_left (n / 2 ^ (128 - c)) (pow_pos (128 - c))

pub covers-canonicalize :
    (p : AllowedIp) (a : IpAddr) → IsPrefix p → covers (canonicalize p) a ≡ covers p a
unfolding covers
covers-canonicalize p a h =
    rw (canonicalize_lem p h) (rw (with_raw_family p.addr a _, masked_top p.addr p.cidr))

-- `r` is a block whose halves are `p` and `q`.
record IsParent (p q r : AllowedIp) : Type 0 where
  normal : IsNormal r
  more : r.cidr + 1 < width r.addr
  halves : ((lower r ≡ p) × (upper r ≡ q)) ⊎ ((lower r ≡ q) × (upper r ≡ p))

ordered-eq :
    (a b c d : AllowedIp)
    → (ordered a b).0 ≡ (ordered c d).0
    → (ordered a b).1 ≡ (ordered c d).1
    → ((a ≡ c) × (b ≡ d)) ⊎ ((a ≡ d) × (b ≡ c))
unfolding ordered
ordered-eq a b c d e f = ground arith

abbrev widened : AllowedIp → AllowedIp
widened p = record { addr = apply_mask p.addr (p.cidr - 1); cidr = p.cidr - 1 }

-- What the tests of `parent_of` leave.
parent_of-some :
    (p q r : AllowedIp)
    → parent_of p q ≡ some r
    → (widened p ≡ r)
      × (allowed_eq p q ≡ false)
      × (allowed_eq (ordered (lower r) (upper r)).0 (ordered p q).0 ≡ true)
      × (allowed_eq (ordered (lower r) (upper r)).1 (ordered p q).1 ≡ true)
unfolding parent_of
parent_of-some p q r h = elim (Bool-cases (allowed_eq p q)) [
  | inl e ↦ absurd (cc (rw e at h))
  | inr e ↦
      elim (Bool-cases (
        (contains_prefix (widened p) p && contains_prefix (widened p) q)
        && (allowed_eq (ordered (lower (widened p)) (upper (widened p))).0 (ordered p q).0
            && allowed_eq (ordered (lower (widened p)) (upper (widened p))).1 (ordered p q).1))) [
              | inl t ↦
                  let w : widened p ≡ r = cc (rw (e, t) at h) in
                  let t' = rw w at t in
                  (
                    w,
                    e,
                    ((&&_iff _ _).0 ((&&_iff _ _).0 t').1).0,
                    ((&&_iff _ _).0 ((&&_iff _ _).0 t').1).1,
                  )
              | inr t ↦ absurd (cc (rw (e, t) at h))
            ]
]

sibling_guard :
    (p q r : AllowedIp)
    → IsCanonical p
    → IsCanonical q
    → sibling_parent p q ≡ some r
    → (p.cidr ≢ 0) × (parent_of p q ≡ some r)
unfolding sibling_parent
sibling_guard p q r hp hq h =
    elim (Bool-cases (
      not (bool_eq (is_ipv4 p.addr) (is_ipv4 q.addr)) || (not (p.cidr == q.cidr) || p.cidr == 0))) [
        | inl g ↦ absurd (cc (rw g at h))
        | inr g ↦ (ground arith, rw (g, hp, hq) at h)
      ]

widened-IsNormal : (p : AllowedIp) → IsNormal p → IsNormal (widened p)
unfolding canonicalize
widened-IsNormal p h =
    canonicalize-IsNormal (record { addr = p.addr; cidr = p.cidr - 1 })
      (let fits = h.prefix.fits in record { ip = h.prefix.ip; fits = omega arith })

pub width-apply_mask : (a : IpAddr) (c : ℕ) → width (apply_mask a c) ≡ width a
unfolding apply_mask
width-apply_mask (v4 n) c = refl
width-apply_mask (v6 n) c = refl

widened_fits : (p r : AllowedIp) → IsNormal p → p.cidr ≢ 0 → widened p ≡ r → r.cidr < width r.addr
widened_fits p r h nz w =
    let fits = h.prefix.fits in
    subst (λ (s : AllowedIp). s.cidr < width s.addr) w
      (rw (width-apply_mask p.addr (p.cidr - 1)) (omega arith))

-- Single addresses have no parent: both halves of a block of two are its first address.
halves_differ :
    (p q r : AllowedIp)
    → IsNormal r
    → r.cidr < width r.addr
    → allowed_eq p q ≡ false
    → ((lower r ≡ p) × (upper r ≡ q)) ⊎ ((lower r ≡ q) × (upper r ≡ p))
    → r.cidr + 1 < width r.addr
halves_differ p q r h lt ne sides =
    elim (let c : (r.cidr + 1 ≡ width r.addr) ⊎ (r.cidr + 1 < width r.addr) = omega arith in c) [
      | inr more ↦ more
      | inl e ↦
          let same = upper_single r h.prefix h.canonical lt e in
          let pq : p ≡ q = elim sides [
            | inl s ↦ sym s.0 ∙ sym same ∙ s.1
            | inr s ↦ sym s.1 ∙ same ∙ s.0
          ] in
          absurd (false≢true (sym ne ∙ (allowed_eq_iff p q).1 pq))
    ]

sibling_parent-IsParent :
    (p q r : AllowedIp) → IsNormal p → IsNormal q → sibling_parent p q ≡ some r → IsParent p q r
sibling_parent-IsParent p q r hp hq h =
    let (nz, par) = sibling_guard p q r hp.canonical hq.canonical h in
    let (w, ne, first, second) = parent_of-some p q r par in
    let nr = subst IsNormal w (widened-IsNormal p hp) in
    let sides =
      ordered-eq (lower r) (upper r) p q ((allowed_eq_iff _ _).0 first)
        ((allowed_eq_iff _ _).0 second) in
    record {
      normal = nr;
      more = halves_differ p q r nr (widened_fits p r hp nz w) ne sides;
      halves = sides;
    }

-- A merged pair covers what the two covered.
covers_siblings :
    (p q r : AllowedIp) (a : IpAddr) → IsParent p q r → covers r a ≡ (covers p a || covers q a)
covers_siblings p q r a h =
    let more = h.more in
    let split = covers_halves r h.normal.prefix h.normal.canonical (omega arith) a h.more in
    elim h.halves [
      | inl s ↦ rw s.0 at (rw s.1 at split)
      | inr s ↦ ground (arith, rw s.0 at (rw s.1 at split))
    ]

pub covered-merge_pass :
    (ps : List AllowedIp) (a : IpAddr)
    → All IsNormal ps
    → covered (merge_pass ps).0 a ≡ covered ps a
unfolding merge_pass
covered-merge_pass [] a h = refl
covered-merge_pass (p ∷ []) a h = refl
covered-merge_pass (p ∷ q ∷ rest) a h = elim (Option-cases (sibling_parent p q)) [
  | inl e ↦ rw (e, merge_pass) (ground (arith, covered-merge_pass (q ∷ rest) a h.1))
  | inr (r, e) ↦
      let par = sibling_parent-IsParent p q r h.0 h.1.0 e in
      rw (e, merge_pass)
        (ground (arith, covered-merge_pass rest a h.1.1, covers_siblings p q r a par))
]

pub merge_pass-IsNormal : (ps : List AllowedIp) → All IsNormal ps → All IsNormal (merge_pass ps).0
unfolding merge_pass
merge_pass-IsNormal [] h = tt
merge_pass-IsNormal (p ∷ []) h = h
merge_pass-IsNormal (p ∷ q ∷ rest) h = elim (Option-cases (sibling_parent p q)) [
  | inl e ↦ rw (e, merge_pass) (h.0, merge_pass-IsNormal (q ∷ rest) h.1)
  | inr (r, e) ↦
      let par = sibling_parent-IsParent p q r h.0 h.1.0 e in
      rw (e, merge_pass) (par.normal, merge_pass-IsNormal rest h.1.1)
]

-- A parent is a block, so merging makes no single address.
pub merge_pass-IsBlock :
    (ps : List AllowedIp) → All IsNormal ps → All IsBlock ps → All IsBlock (merge_pass ps).0
unfolding merge_pass
merge_pass-IsBlock [] h b = tt
merge_pass-IsBlock (p ∷ []) h b = b
merge_pass-IsBlock (p ∷ q ∷ rest) h b = elim (Option-cases (sibling_parent p q)) [
  | inl e ↦ rw (e, merge_pass) (b.0, merge_pass-IsBlock (q ∷ rest) h.1 b.1)
  | inr (r, e) ↦
      let more = (sibling_parent-IsParent p q r h.0 h.1.0 e).more in
      rw (e, merge_pass) (omega arith, merge_pass-IsBlock rest h.1.1 b.1.1)
]
