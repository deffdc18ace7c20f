-- ===== src/Cidr/Normalize/Cover.antt =====
-- The normal form covers what the list covers, and its prefixes are canonical.
use r_wg.Base.{
  ℕ, zero, suc, ◌≡◌, refl, ◌∙◌, inl, inr, Bool, false, arith, Bool-cases, List, [], ◌∷◌, map,
  length, All,
}
use r_wg.Net.{IpAddr, AllowedIp, IsPrefix}
use r_wg.Cidr.{canonicalize}
use r_wg.Cidr.Covers.{covered, IsNormal, IsBlock}
use r_wg.Cidr.Normalize.{sort, dedup, drop_covered, round, merge_loop, normalize_prefixes}
use r_wg.Cidr.Normalize.Order.{
  covered-sort, covered-dedup, covered-drop_covered, All-sort, All-dedup, All-drop_covered,
}
use r_wg.Cidr.Normalize.Merge.{
  canonicalize-IsNormal, covers-canonicalize, covered-merge_pass, merge_pass-IsNormal,
  merge_pass-IsBlock, width-apply_mask,
}

All-prefix : (ps : List AllowedIp) → All IsNormal ps → All IsPrefix ps
All-prefix [] h = tt
All-prefix (p ∷ ps) h = (h.0.prefix, All-prefix ps h.1)

round-IsNormal : (ps : List AllowedIp) → All IsNormal ps → All IsNormal (round ps).filtered
unfolding round
round-IsNormal ps h =
    All-drop_covered IsNormal [] _ tt (merge_pass-IsNormal _ (All-sort IsNormal ps h))

round-IsBlock :
    (ps : List AllowedIp) → All IsNormal ps → All IsBlock ps → All IsBlock (round ps).filtered
unfolding round
round-IsBlock ps h b =
    All-drop_covered IsBlock [] _ tt
      (merge_pass-IsBlock _ (All-sort IsNormal ps h) (All-sort IsBlock ps b))

covered-round :
    (ps : List AllowedIp) (a : IpAddr)
    → All IsNormal ps
    → covered (round ps).filtered a ≡ covered ps a
unfolding round
covered-round ps a h =
    let s = All-sort IsNormal ps h in
    covered-drop_covered a [] _ tt (All-prefix _ (merge_pass-IsNormal _ s))
    ∙ covered-merge_pass _ a s
    ∙ covered-sort a ps

-- What holds of a list and is kept by a round holds when the loop ends.
loop_keeps :
    (P : List AllowedIp → Type 0)
    → ((ps : List AllowedIp) → P ps → P (round ps).filtered)
    → (fuel : ℕ) (ps : List AllowedIp) (merged : Bool) → P ps
    → P (merge_loop fuel ps merged).0
unfolding merge_loop
loop_keeps P step zero ps merged h = h
loop_keeps P step (suc fuel) ps merged h = elim (Bool-cases (round ps).changed) [
  | inl e ↦ rw e (loop_keeps P step fuel (round ps).filtered _ (step ps h))
  | inr e ↦ rw e (step ps h)
]

map-IsNormal : (ps : List AllowedIp) → All IsPrefix ps → All IsNormal (map canonicalize ps)
map-IsNormal [] h = tt
map-IsNormal (p ∷ ps) h = (canonicalize-IsNormal p h.0, map-IsNormal ps h.1)

covered-map :
    (ps : List AllowedIp) (a : IpAddr)
    → All IsPrefix ps
    → covered (map canonicalize ps) a ≡ covered ps a
covered-map [] a h = refl
covered-map (p ∷ ps) a h = ground (arith, covers-canonicalize p a h.0, covered-map ps a h.1)

abbrev start : List AllowedIp → List AllowedIp
start ps = (drop_covered [] (dedup (sort (map canonicalize ps)))).0

start-IsNormal : (ps : List AllowedIp) → All IsPrefix ps → All IsNormal (start ps)
start-IsNormal ps h =
    All-drop_covered IsNormal [] _ tt
      (All-dedup IsNormal _ (All-sort IsNormal _ (map-IsNormal ps h)))

covered-start :
    (ps : List AllowedIp) (a : IpAddr) → All IsPrefix ps → covered (start ps) a ≡ covered ps a
covered-start ps a h =
    covered-drop_covered a [] _ tt
      (All-prefix _ (All-dedup IsNormal _ (All-sort IsNormal _ (map-IsNormal ps h))))
    ∙ covered-dedup a (sort (map canonicalize ps))
    ∙ covered-sort a (map canonicalize ps)
    ∙ covered-map ps a h

-- Every prefix of the normal form is canonical.
pub normalize-IsNormal :
    (ps : List AllowedIp) → All IsPrefix ps → All IsNormal (normalize_prefixes ps).0
unfolding normalize_prefixes
normalize-IsNormal [] h = tt
normalize-IsNormal (p ∷ ps) h =
    loop_keeps (All IsNormal) round-IsNormal _ (start (p ∷ ps)) false (start-IsNormal (p ∷ ps) h)

-- The normal form covers exactly the addresses that the list covers.
pub covered-normalize :
    (ps : List AllowedIp) (a : IpAddr)
    → All IsPrefix ps
    → covered (normalize_prefixes ps).0 a ≡ covered ps a
unfolding normalize_prefixes
covered-normalize [] a h = refl
covered-normalize (p ∷ ps) a h =
    let kept =
      loop_keeps (λ qs. All IsNormal qs × (covered qs a ≡ covered (p ∷ ps) a))
        (λ qs k. (round-IsNormal qs k.0, covered-round qs a k.0 ∙ k.1))
        (suc (length (start (p ∷ ps)))) (start (p ∷ ps)) false
        (start-IsNormal (p ∷ ps) h, covered-start (p ∷ ps) a h) in
    kept.1

cidr-canonicalize : (ps : List AllowedIp) → All IsBlock ps → All IsBlock (map canonicalize ps)
unfolding canonicalize
cidr-canonicalize [] h = tt
cidr-canonicalize (p ∷ ps) h = (rw (width-apply_mask p.addr p.cidr) h.0, cidr-canonicalize ps h.1)

-- A list without single addresses has a normal form without them.
pub normalize-IsBlock :
    (ps : List AllowedIp) → All IsPrefix ps → All IsBlock ps → All IsBlock (normalize_prefixes ps).0
unfolding normalize_prefixes
normalize-IsBlock [] h b = tt
normalize-IsBlock (p ∷ ps) h b =
    let kept =
      loop_keeps (λ qs. All IsNormal qs × All IsBlock qs)
        (λ qs k. (round-IsNormal qs k.0, round-IsBlock qs k.0 k.1)) (suc (length (start (p ∷ ps))))
        (start (p ∷ ps)) false
        (
          start-IsNormal (p ∷ ps) h,
          All-drop_covered IsBlock [] _ tt
              (All-dedup IsBlock _ (All-sort IsBlock _ (cidr-canonicalize (p ∷ ps) b))),
        ) in
    kept.1
