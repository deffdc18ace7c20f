-- ===== src/Cidr/Normalize/Fixed.antt =====
-- The `while changed` loop of `normalize_prefixes` ends by its test, at a list that is sorted and
-- that a further round would not change.
use mathlib.Core.List.{append-nil, append_assoc}
use r_wg.Base.{
  ℕ, zero, suc, ◌+◌, ◌≤◌, ◌<◌, ◌≡◌, refl, sym, ap, subst, ◌∙◌, inl, inr, Bool, true, false, ◌||◌,
  arith, Bool-cases, Option-cases, none, List, [], ◌∷◌, ◌++◌, map, length, length-append, any,
}
use r_wg.Net.{IpAddr, v4, v6, AllowedIp}
use r_wg.Cidr.{addr_key_gt, canonicalize, key_gt, contains_prefix, sibling_parent}
use r_wg.Cidr.Normalize.{
  insert, sort, dedup, drop_covered, merge_pass, round, merge_loop, normalize_prefixes,
}

-- No neighbour is out of order.
abbrev pub IsSorted : List AllowedIp → Type 0
IsSorted [] = Unit
IsSorted (p ∷ []) = Unit
IsSorted (p ∷ q ∷ ps) = (key_gt p q ≡ false) × IsSorted (q ∷ ps)

-- `sibling_parent` finds no parent of two neighbours.
abbrev pub IsUnmerged : List AllowedIp → Type 0
IsUnmerged [] = Unit
IsUnmerged (p ∷ []) = Unit
IsUnmerged (p ∷ q ∷ ps) = (sibling_parent p q ≡ none) × IsUnmerged (q ∷ ps)

-- No prefix is contained in an earlier one, those of `kept` included.
abbrev pub IsApart : List AllowedIp → List AllowedIp → Type 0
IsApart kept [] = Unit
IsApart kept (p ∷ ps) = (any (λ e. contains_prefix e p) kept ≡ false) × IsApart (kept ++ p ∷ []) ps

addr_key_asym : (a b : IpAddr) (m n : ℕ) → addr_key_gt a m b n ≡ true → addr_key_gt b n a m ≡ false
unfolding addr_key_gt
addr_key_asym (v4 a) (v4 b) m n h = ground arith
addr_key_asym (v4 a) (v6 b) m n h = ground arith
addr_key_asym (v6 a) (v4 b) m n h = ground arith
addr_key_asym (v6 a) (v6 b) m n h = ground arith

key_gt_asym : (p q : AllowedIp) → key_gt p q ≡ true → key_gt q p ≡ false
unfolding key_gt
key_gt_asym p q h = addr_key_asym p.addr q.addr p.cidr q.cidr h

insert-IsSorted : (p : AllowedIp) (ps : List AllowedIp) → IsSorted ps → IsSorted (insert p ps)
unfolding insert
insert-IsSorted p [] h = tt
insert-IsSorted p (q ∷ []) h = elim (Bool-cases (key_gt p q)) [
  | inl e ↦ rw e (key_gt_asym p q e, tt)
  | inr e ↦ rw e (e, tt)
]
insert-IsSorted p (q ∷ r ∷ ps) h = elim (Bool-cases (key_gt p q)) [
  | inr e ↦ rw e (e, h)
  | inl e ↦
      let rest = insert-IsSorted p (r ∷ ps) h.1 in
      elim (Bool-cases (key_gt p r)) [
        | inl f ↦ rw (e, f) (h.0, rw f at rest)
        | inr f ↦ rw (e, f) (key_gt_asym p q e, rw f at rest)
      ]
]

sort-IsSorted : (ps : List AllowedIp) → IsSorted (sort ps)
unfolding sort
sort-IsSorted [] = tt
sort-IsSorted (p ∷ ps) = insert-IsSorted p (sort ps) (sort-IsSorted ps)

length-insert : (p : AllowedIp) (ps : List AllowedIp) → length (insert p ps) ≡ suc (length ps)
unfolding insert
length-insert p [] = refl
length-insert p (q ∷ ps) = ground (arith, length-insert p ps)

length-sort : (ps : List AllowedIp) → length (sort ps) ≡ length ps
unfolding sort
length-sort [] = refl
length-sort (p ∷ ps) = omega (arith, length-insert p (sort ps), length-sort ps)

or_false : (a b : Bool) → (a || b) ≡ false → (a ≡ false) × (b ≡ false)
or_false a b h = ground arith

record MergeFacts (ps : List AllowedIp) : Type 0 where
  shorter : length (merge_pass ps).0 ≤ length ps
  strictly : (merge_pass ps).1 ≡ true → length (merge_pass ps).0 < length ps
  same : (merge_pass ps).1 ≡ false → ((merge_pass ps).0 ≡ ps) × IsUnmerged ps

merge_facts : (ps : List AllowedIp) → MergeFacts ps
unfolding merge_pass
merge_facts [] = record { shorter = omega arith; strictly = λ h. cc; same = λ h. (refl, tt) }
merge_facts (p ∷ []) = record { shorter = omega arith; strictly = λ h. cc; same = λ h. (refl, tt) }
merge_facts (p ∷ q ∷ rest) = elim (Option-cases (sibling_parent p q)) [
  | inl e ↦
      let f = merge_facts (q ∷ rest) in
      record {
        shorter = rw (e, merge_pass) (let s = f.shorter in omega arith);
        strictly = rw (e, merge_pass) (λ h. let s = f.strictly h in omega arith);
        same = rw (e, merge_pass) (λ h. (ap (◌∷◌ p) (f.same h).0, (refl, (f.same h).1)));
      }
  | inr (r, e) ↦
      let f = merge_facts rest in
      record {
        shorter = rw (e, merge_pass) (let s = f.shorter in omega arith);
        strictly = rw (e, merge_pass) (λ h. let s = f.shorter in omega arith);
        same = rw (e, merge_pass) (λ h. absurd (cc h));
      }
]

record DropFacts (kept ps : List AllowedIp) : Type 0 where
  shorter : length (drop_covered kept ps).0 ≤ length kept + length ps
  strictly :
      (drop_covered kept ps).1 ≡ true → length (drop_covered kept ps).0 < length kept + length ps
  same :
      (drop_covered kept ps).1 ≡ false → ((drop_covered kept ps).0 ≡ kept ++ ps) × IsApart kept ps

drop_facts : (kept ps : List AllowedIp) → DropFacts kept ps
unfolding drop_covered
drop_facts kept [] = record {
  shorter = omega arith;
  strictly = λ h. cc;
  same = λ h. (sym (append-nil kept), tt);
}
drop_facts kept (p ∷ ps) = elim (Bool-cases (any (λ e. contains_prefix e p) kept)) [
  | inl e ↦
      let f = drop_facts kept ps in
      record {
        shorter = rw e (let s = f.shorter in omega arith);
        strictly = rw e (λ h. let s = f.shorter in omega arith);
        same = rw e (λ h. absurd (cc h));
      }
  | inr e ↦
      let f = drop_facts (kept ++ p ∷ []) ps in
      let n = length-append kept (p ∷ []) in
      record {
        shorter = rw e (let s = f.shorter in omega arith);
        strictly = rw e (λ h. let s = f.strictly h in omega arith);
        same = rw e (λ h. ((f.same h).0 ∙ append_assoc kept (p ∷ []) ps, (refl, (f.same h).1)));
      }
]

-- A round that changes something leaves fewer prefixes.
round_shrinks :
    (ps : List AllowedIp) → (round ps).changed ≡ true → length (round ps).filtered < length ps
unfolding round
round_shrinks ps h =
    let m = merge_facts (sort ps) in
    let d = drop_facts [] (merge_pass (sort ps)).0 in
    let n = length-sort ps in
    let ms = m.shorter in
    let ds = d.shorter in
    elim (Bool-cases (merge_pass (sort ps)).1) [
      | inl e ↦ let s = m.strictly e in omega arith
      | inr e ↦ let s = d.strictly (rw e at h) in omega arith
    ]

-- The normal form: nothing left to sort, drop or merge.
pub record IsFixed (ps : List AllowedIp) : Type 0 where
  pub sorted : IsSorted ps
  pub unmerged : IsUnmerged ps
  pub apart : IsApart [] ps

round-IsFixed : (ps : List AllowedIp) → (round ps).changed ≡ false → IsFixed (round ps).filtered
unfolding round
round-IsFixed ps h =
    let (e, f) = or_false _ _ h in
    let (me, un) = (merge_facts (sort ps)).same e in
    let (de, ap') = (drop_facts [] (merge_pass (sort ps)).0).same f in
    subst IsFixed (sym (de ∙ me))
      (record { sorted = sort-IsSorted ps; unmerged = un; apart = rw me at ap' })

-- With more fuel than prefixes the loop ends by its test.
merge_loop-IsFixed :
    (fuel : ℕ) (ps : List AllowedIp) (merged : Bool)
    → length ps < fuel
    → IsFixed (merge_loop fuel ps merged).0
unfolding merge_loop
merge_loop-IsFixed zero ps merged h = absurd (omega arith)
merge_loop-IsFixed (suc fuel) ps merged h = elim (Bool-cases (round ps).changed) [
  | inl e ↦
      let s = round_shrinks ps e in
      rw e (merge_loop-IsFixed fuel (round ps).filtered _ (omega arith))
  | inr e ↦ rw e (round-IsFixed ps e)
]

-- Whatever the input, the loop ends, at a sorted list in which no prefix is contained in an earlier
-- one and `sibling_parent` finds no parent of two neighbours.
pub normalize-IsFixed : (ps : List AllowedIp) → IsFixed (normalize_prefixes ps).0
unfolding normalize_prefixes
normalize-IsFixed [] = record { sorted = tt; unmerged = tt; apart = tt }
normalize-IsFixed (p ∷ ps) =
    merge_loop-IsFixed _ (drop_covered [] (dedup (sort (map canonicalize (p ∷ ps))))).0 false
      (omega arith)
