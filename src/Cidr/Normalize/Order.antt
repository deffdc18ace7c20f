-- ===== src/Cidr/Normalize/Order.antt =====
-- Sorting, `dedup` and the dropping of contained prefixes change neither what a list covers nor what
-- all its prefixes satisfy.
use r_wg.Base.{
  ◌≡◌, refl, ap, inl, inr, true, ◌||◌, arith, Bool-cases, List, [], ◌∷◌, ◌++◌, any, any-append, All,
  All-append,
}
use r_wg.Net.{IpAddr, AllowedIp, allowed_eq, allowed_eq_iff, IsPrefix}
use r_wg.Cidr.{contains_prefix, key_gt}
use r_wg.Cidr.Mask.{covers}
use r_wg.Cidr.Covers.{covered, covers_of_contains}
use r_wg.Cidr.Normalize.{insert, sort, dedup_from, dedup, drop_covered}

module _ (a : IpAddr) where
  covered-insert :
      (p : AllowedIp) (ps : List AllowedIp) → covered (insert p ps) a ≡ (covers p a || covered ps a)
  unfolding insert
  covered-insert p [] = refl
  covered-insert p (q ∷ qs) = ground (arith, covered-insert p qs)

  pub covered-sort : (ps : List AllowedIp) → covered (sort ps) a ≡ covered ps a
  unfolding sort
  covered-sort [] = refl
  covered-sort (p ∷ ps) = ground (arith, covered-insert p (sort ps), covered-sort ps)

  covered-dedup_from :
      (last : AllowedIp) (ps : List AllowedIp)
      → (covers last a || covered (dedup_from last ps) a) ≡ (covers last a || covered ps a)
  unfolding dedup_from
  covered-dedup_from last [] = refl
  covered-dedup_from last (p ∷ ps) = elim (Bool-cases (allowed_eq last p)) [
    | inl e ↦ rw e (
        ground (
          arith,
          covered-dedup_from last ps,
          ap (λ (q : AllowedIp). covers q a) ((allowed_eq_iff last p).0 e),
        ))
    | inr e ↦ rw e (ground (arith, covered-dedup_from p ps))
  ]

  pub covered-dedup : (ps : List AllowedIp) → covered (dedup ps) a ≡ covered ps a
  unfolding dedup
  covered-dedup [] = refl
  covered-dedup (p ∷ ps) = covered-dedup_from p ps

  covered_of_contains :
      (p : AllowedIp) (kept : List AllowedIp)
      → IsPrefix p
      → All IsPrefix kept
      → any (λ e. contains_prefix e p) kept ≡ true
      → covers p a ≡ true
      → covered kept a ≡ true
  covered_of_contains p [] hp hk h c = h
  covered_of_contains p (e ∷ kept) hp hk h c = elim (Bool-cases (contains_prefix e p)) [
    | inl k ↦ ground (arith, covers_of_contains e p a hk.0 hp k c)
    | inr k ↦ ground (arith, covered_of_contains p kept hp hk.1 (ground arith) c)
  ]

  -- A prefix that an earlier one contains adds nothing.
  pub covered-drop_covered :
      (kept ps : List AllowedIp)
      → All IsPrefix kept
      → All IsPrefix ps
      → covered (drop_covered kept ps).0 a ≡ (covered kept a || covered ps a)
  unfolding drop_covered
  covered-drop_covered kept [] hk hp = ground arith
  covered-drop_covered kept (p ∷ ps) hk hp =
      elim (Bool-cases (any (λ e. contains_prefix e p) kept)) [
        | inl c ↦ rw c (
            ground
              (arith, covered-drop_covered kept ps hk hp.1, covered_of_contains p kept hp.0 hk c))
        | inr c ↦ rw c (
            ground (
              arith,
              covered-drop_covered (kept ++ p ∷ []) ps
                  (All-append IsPrefix kept (p ∷ []) hk (hp.0, tt)) hp.1,
              any-append (λ q. covers q a) kept (p ∷ []),
            ))
      ]

module _ (P : AllowedIp → Type 0) where
  All-insert : (p : AllowedIp) (ps : List AllowedIp) → P p → All P ps → All P (insert p ps)
  unfolding insert
  All-insert p [] h k = (h, tt)
  All-insert p (q ∷ qs) h k = elim (Bool-cases (key_gt p q)) [
    | inl e ↦ rw e (k.0, All-insert p qs h k.1)
    | inr e ↦ rw e (h, k)
  ]

  pub All-sort : (ps : List AllowedIp) → All P ps → All P (sort ps)
  unfolding sort
  All-sort [] h = tt
  All-sort (p ∷ ps) h = All-insert p (sort ps) h.0 (All-sort ps h.1)

  All-dedup_from : (last : AllowedIp) (ps : List AllowedIp) → All P ps → All P (dedup_from last ps)
  unfolding dedup_from
  All-dedup_from last [] h = tt
  All-dedup_from last (p ∷ ps) h = elim (Bool-cases (allowed_eq last p)) [
    | inl e ↦ rw e (All-dedup_from last ps h.1)
    | inr e ↦ rw e (h.0, All-dedup_from p ps h.1)
  ]

  pub All-dedup : (ps : List AllowedIp) → All P ps → All P (dedup ps)
  unfolding dedup
  All-dedup [] h = tt
  All-dedup (p ∷ ps) h = (h.0, All-dedup_from p ps h.1)

  pub All-drop_covered :
      (kept ps : List AllowedIp) → All P kept → All P ps → All P (drop_covered kept ps).0
  unfolding drop_covered
  All-drop_covered kept [] hk hp = hk
  All-drop_covered kept (p ∷ ps) hk hp = elim (Bool-cases (any (λ e. contains_prefix e p) kept)) [
    | inl c ↦ rw c (All-drop_covered kept ps hk hp.1)
    | inr c ↦
        rw c (All-drop_covered (kept ++ p ∷ []) ps (All-append P kept (p ∷ []) hk (hp.0, tt)) hp.1)
  ]
