-- ===== src/Cidr/Covers.antt =====
-- What the tests of src/backend/wg/tools/cidr.rs say of the addresses that a prefix covers, and the
-- two halves of a prefix.
use r_wg.Base.{
  ◌≤◌, ◌<◌, ◌≡◌, refl, sym, ◌∙◌, Bool, true, ◌&&◌, ◌==◌, ==_iff, arith, min, List, any, &&_iff,
  leb→le, le→leb,
}
use r_wg.Net.{IpAddr, v4, v6, AllowedIp, width, IsPrefix}
use r_wg.Cidr.{canonicalize, contains_prefix, overlaps}
use r_wg.Cidr.Mask.{same_family, top, ip_eq-apply_mask, covers, contains_prefix_lem, top_mono}

-- Some prefix of the list covers the address.
abbrev pub covered : List AllowedIp → IpAddr → Bool
covered ps a = any (λ p. covers p a) ps

-- No host bit is set.
abbrev pub IsCanonical : AllowedIp → Type 0
IsCanonical p = canonicalize p ≡ p

-- Accepted by the parser, with no host bit set.
pub record IsNormal (p : AllowedIp) : Type 0 where
  pub prefix : IsPrefix p
  pub canonical : IsCanonical p

-- The prefix is no single address.
abbrev pub IsBlock : AllowedIp → Type 0
IsBlock p = p.cidr < width p.addr

pub family_trans :
    (a b c : IpAddr) → same_family a b ≡ true → same_family b c ≡ true → same_family a c ≡ true
family_trans a b c h k = ground arith

family_sym : (a b : IpAddr) → same_family a b ≡ same_family b a
family_sym a b = ground arith

pub covers-parts :
    (p : AllowedIp) (a : IpAddr)
    → covers p a ≡ true
    → (same_family p.addr a ≡ true) × (top p.addr p.cidr ≡ top a p.cidr)
unfolding covers
covers-parts p a h = let t = (&&_iff _ _).0 h in (t.0, (==_iff _ _).0 t.1)

pub covers-intro :
    (p : AllowedIp) (a : IpAddr)
    → same_family p.addr a ≡ true
    → top p.addr p.cidr ≡ top a p.cidr
    → covers p a ≡ true
unfolding covers
covers-intro p a f e = (&&_iff _ _).1 (f, (==_iff _ _).1 e)

pub width_of_family : (a b : IpAddr) → same_family a b ≡ true → width a ≡ width b
width_of_family (v4 m) (v4 n) h = refl
width_of_family (v4 m) (v6 n) h = cc
width_of_family (v6 m) (v4 n) h = cc
width_of_family (v6 m) (v6 n) h = refl

-- A prefix that contains another covers its addresses.
pub covers_of_contains :
    (p q : AllowedIp) (a : IpAddr)
    → IsPrefix p
    → IsPrefix q
    → contains_prefix p q ≡ true
    → covers q a ≡ true
    → covers p a ≡ true
covers_of_contains p q a hp hq c k =
    let (le, cov) = (&&_iff _ _).0 (sym (contains_prefix_lem p q hp.ip hq.ip) ∙ c) in
    let (f, e) = covers-parts p q.addr cov in
    let (g, e') = covers-parts q a k in
    covers-intro p a (family_trans p.addr q.addr a f g)
      (e ∙ top_mono q.addr a p.cidr q.cidr (leb→le _ _ le) hq.fits g e')

overlaps_lem :
    (p q : AllowedIp)
    → IsPrefix p
    → IsPrefix q
    → overlaps p q ≡ (
        same_family p.addr q.addr
        && top p.addr (min p.cidr q.cidr) == top q.addr (min p.cidr q.cidr))
unfolding overlaps
overlaps_lem p q hp hq =
    rw (ip_eq-apply_mask p.addr q.addr (min p.cidr q.cidr) hp.ip hq.ip) (ground arith)

-- Prefixes that share an address overlap.
pub overlaps_of_shared :
    (p q : AllowedIp) (a : IpAddr)
    → IsPrefix p
    → IsPrefix q
    → covers p a ≡ true
    → covers q a ≡ true
    → overlaps p q ≡ true
overlaps_of_shared p q a hp hq h k =
    let (f, e) = covers-parts p a h in
    let (g, e') = covers-parts q a k in
    let m = min p.cidr q.cidr in
    let le_p : m ≤ p.cidr = omega arith in
    let le_q : m ≤ q.cidr = omega arith in
    let s : same_family p.addr q.addr ≡ true =
      family_trans p.addr a q.addr f (family_sym a q.addr ∙ g) in
    overlaps_lem p q hp hq
    ∙ (&&_iff _ _).1 (
      s,
      (==_iff _ _).1 (
          top_mono p.addr a m p.cidr le_p hp.fits f e
          ∙ sym (top_mono q.addr a m q.cidr le_q hq.fits g e')),
    )

-- Overlapping prefixes are nested: the shorter contains the longer.
pub contains_of_overlaps :
    (p q : AllowedIp)
    → IsPrefix p
    → IsPrefix q
    → overlaps p q ≡ true
    → q.cidr ≤ p.cidr
    → contains_prefix q p ≡ true
contains_of_overlaps p q hp hq o le =
    let m : min p.cidr q.cidr ≡ q.cidr = omega arith in
    let (f, e) = (&&_iff _ _).0 (sym (overlaps_lem p q hp hq) ∙ o) in
    contains_prefix_lem q p hq.ip hp.ip
    ∙ (&&_iff _ _).1 (
      le→leb q.cidr p.cidr le,
      covers-intro q p.addr (family_sym q.addr p.addr ∙ f) (rw m at (sym ((==_iff _ _).0 e))),
    )

pub overlaps-width :
    (p q : AllowedIp) → IsPrefix p → IsPrefix q → overlaps p q ≡ true → width p.addr ≡ width q.addr
overlaps-width p q hp hq o =
    width_of_family p.addr q.addr ((&&_iff _ _).0 (sym (overlaps_lem p q hp hq) ∙ o)).0
