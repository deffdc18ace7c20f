-- ===== src/Cidr/Exclude/Prefix.antt =====
-- What `subtract_prefix` of src/backend/wg/tools/cidr.rs appends to its output.
use r_wg.Base.{
  ℕ, zero, suc, ◌+◌, ◌-◌, ◌≤◌, ◌<◌, ◌≡◌, refl, sym, ap, subst, ◌∙◌, le_or_lt, ◌⊎◌, inl, inr, true,
  false, arith, Bool-cases, List, [], ◌∷◌, ◌++◌, any-append, All, All-append,
}
use mathlib.Core.Bool.{false≢true}
use r_wg.Base.Result.{ok, >>=-eq-ok, ok-injective}
use r_wg.Net.{IpAddr, v4, v6, AllowedIp, width, IsPrefix}
use r_wg.Cidr.{max_bits, overlaps, contains_prefix}
use r_wg.Cidr.Mask.{covers}
use r_wg.Cidr.Covers.{
  covered, IsNormal, IsBlock, covers_of_contains, overlaps_of_shared, contains_of_overlaps,
  overlaps-width,
}
use r_wg.Cidr.Split.{
  lower, upper, lower-IsPrefix, upper-IsPrefix, lower-IsCanonical, upper-IsCanonical,
  covers_of_lower, covers_of_upper, halves_cover, width-lower, width-upper, lower_cidr, upper_cidr,
}
use r_wg.Cidr.Exclude.{within, subtract_bits, subtract_prefix}

-- `out'` is `out` and what `p` covers outside `q`; all of it, if `q` is no single address.
pub record Removes (p q : AllowedIp) (out out' : List AllowedIp) : Type 0 where
  pub normal : All IsNormal out → All IsNormal out'
  pub sound :
      (a : IpAddr)
      → covered out' a ≡ true
      → (covered out a ≡ true) ⊎ ((covers p a ≡ true) × (covers q a ≡ false))
  pub keeps : (a : IpAddr) → covered out a ≡ true → covered out' a ≡ true
  pub complete :
      IsBlock q → (a : IpAddr) → covers p a ≡ true → covers q a ≡ false → covered out' a ≡ true

pub within-eq-ok :
    (limit : ℕ) (out : List AllowedIp) {r : List AllowedIp} → within limit out ≡ ok r → out ≡ r
within-eq-ok limit out h = ground arith

module _ (p q : AllowedIp) (hp : IsNormal p) (hq : IsPrefix q) (out : List AllowedIp) where
  -- Apart from `q`, the prefix is kept.
  pushed : overlaps p q ≡ false → Removes p q out (out ++ p ∷ [])
  pushed apart = record {
    normal = λ g. All-append IsNormal out (p ∷ []) g (hp, tt);
    sound = λ a k. elim (Bool-cases (covers p a)) [
      | inl c ↦ inr (c, outside a c)
      | inr c ↦ inl (ground (arith, any-append (λ r. covers r a) out (p ∷ [])))
    ];
    keeps = λ a k. ground (arith, any-append (λ r. covers r a) out (p ∷ []));
    complete = λ b a k m. ground (arith, any-append (λ r. covers r a) out (p ∷ []));
  }
    where
      outside : (a : IpAddr) → covers p a ≡ true → covers q a ≡ false
      outside a c = elim (Bool-cases (covers q a)) [
        | inl d ↦ cc (overlaps_of_shared p q a hp.prefix hq c d)
        | inr d ↦ d
      ]

  -- Inside `q`, it is dropped.
  dropped : contains_prefix q p ≡ true → Removes p q out out
  dropped inside = record {
    normal = λ g. g;
    sound = λ a k. inl k;
    keeps = λ a k. k;
    complete = λ b a k m. cc (covers_of_contains q p a hq hp.prefix inside k);
  }

-- Both halves in turn.
split_Removes :
    (p q : AllowedIp) {out mid out' : List AllowedIp}
    → IsNormal p
    → IsPrefix q
    → IsBlock p
    → (q.cidr ≤ p.cidr → contains_prefix q p ≡ true)
    → contains_prefix q p ≡ false
    → width p.addr ≡ width q.addr
    → Removes (lower p) q out mid
    → Removes (upper p) q mid out'
    → Removes p q out out'
split_Removes p q {out} {mid} {out'} hp hq block nested apart w l r = record {
  normal = λ g. r.normal (l.normal g);
  sound = λ a k. elim (r.sound a k) [
    | inr (c, m) ↦ inr (covers_of_upper p hp.prefix hp.canonical block a c, m)
    | inl k' ↦ elim (l.sound a k') [
      | inr (c, m) ↦ inr (covers_of_lower p hp.prefix hp.canonical block a c, m)
      | inl k'' ↦ inl k''
    ]
  ];
  keeps = λ a k. r.keeps a (l.keeps a k);
  complete = λ b a k m. elim (halves_cover p hp.prefix hp.canonical block a (longer b) k) [
    | inl c ↦ r.keeps a (l.complete b a c m)
    | inr c ↦ r.complete b a c m
  ];
}
  where
    longer : IsBlock q → p.cidr + 1 < width p.addr
    longer b = elim (le_or_lt q.cidr p.cidr) [
      | inl le ↦ absurd (false≢true (sym apart ∙ nested le))
      | inr lt ↦ omega arith
    ]

pub max_bits_lem : (a : IpAddr) → max_bits a ≡ width a
max_bits_lem (v4 n) = refl
max_bits_lem (v6 n) = refl

lower-IsNormal : (p : AllowedIp) → IsNormal p → IsBlock p → IsNormal (lower p)
lower-IsNormal p h b = record {
  prefix = lower-IsPrefix p h.prefix h.canonical b;
  canonical = lower-IsCanonical p h.prefix h.canonical b;
}

upper-IsNormal : (p : AllowedIp) → IsNormal p → IsBlock p → IsNormal (upper p)
upper-IsNormal p h b = record {
  prefix = upper-IsPrefix p h.prefix h.canonical b;
  canonical = upper-IsCanonical p h.prefix h.canonical b;
}

subtract_bits-Removes :
    (bits : ℕ) (p q : AllowedIp) (out : List AllowedIp) (limit : ℕ) (out' : List AllowedIp)
    → width p.addr - p.cidr ≡ bits
    → IsNormal p
    → IsPrefix q
    → subtract_bits bits p q out limit ≡ ok out'
    → Removes p q out out'
unfolding subtract_bits
subtract_bits-Removes zero p q out limit out' e hp hq h = elim (Bool-cases (overlaps p q)) [
  | inl o ↦
      let w = overlaps-width p q hp.prefix hq o in
      let pf = hp.prefix.fits in
      let qf = hq.fits in
      subst (Removes p q out) (ok-injective (rw o at h))
        (dropped p q hp hq out (contains_of_overlaps p q hp.prefix hq o (omega arith)))
  | inr o ↦ subst (Removes p q out) (within-eq-ok limit _ (rw o at h)) (pushed p q hp hq out o)
]
subtract_bits-Removes (suc bits) p q out limit out' e hp hq h = elim (Bool-cases (overlaps p q)) [
  | inr o ↦ subst (Removes p q out) (within-eq-ok limit _ (rw o at h)) (pushed p q hp hq out o)
  | inl o ↦ elim (Bool-cases (contains_prefix q p)) [
    | inl c ↦ subst (Removes p q out) (ok-injective (rw (o, c) at h)) (dropped p q hp hq out c)
    | inr c ↦
        let block : IsBlock p = omega arith in
        let (mid, first, rest) = >>=-eq-ok _ _ (rw (o, c) at h) in
        let (out'', second, last) = >>=-eq-ok _ _ rest in
        let lw = width-lower p hp.prefix hp.canonical block in
        let uw = width-upper p hp.prefix hp.canonical block in
        split_Removes p q hp hq block (contains_of_overlaps p q hp.prefix hq o) c
          (overlaps-width p q hp.prefix hq o)
          (subtract_bits-Removes bits (lower p) q out limit mid (omega (arith, lower_cidr p))
            (lower-IsNormal p hp block) hq first)
          (subtract_bits-Removes bits (upper p) q mid limit out' (omega (arith, upper_cidr p))
            (upper-IsNormal p hp block) hq
            (subst (λ o. subtract_bits bits (upper p) q mid limit ≡ ok o)
              (within-eq-ok limit _ last) second))
  ]
]

-- On prefixes that the parser accepts.
pub subtract_prefix-Removes :
    (p q : AllowedIp) (out : List AllowedIp) (limit : ℕ) {out' : List AllowedIp}
    → IsNormal p
    → IsPrefix q
    → subtract_prefix p q out limit ≡ ok out'
    → Removes p q out out'
unfolding subtract_prefix
subtract_prefix-Removes p q out limit {out'} hp hq h =
    subtract_bits-Removes (max_bits p.addr - p.cidr) p q out limit out'
      (ap (λ (w : ℕ). w - p.cidr) (sym (max_bits_lem p.addr))) hp hq h
