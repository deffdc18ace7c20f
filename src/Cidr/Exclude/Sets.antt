-- ===== src/Cidr/Exclude/Sets.antt =====
-- The loops of `compute_cidr_exclusion` in src/backend/wg/tools/cidr.rs, as a difference of sets.
use mathlib.Core.Bool.{false≢true}
use mathlib.Core.List.{append-nil, append_assoc}
use r_wg.Base.{
  ℕ, ◌≡◌, refl, sym, subst, ◌∙◌, ◌⊎◌, inl, inr, true, false, not, ◌&&◌, arith, Bool-cases, Bool_ext,
  &&_iff, List, [], ◌∷◌, ◌++◌, is_empty, any-append, All, All-append,
}
use r_wg.Base.Result.{ok, ◌>>=◌, >>=-eq-ok, ok-injective}
use r_wg.Net.{IpAddr, AllowedIp, IsPrefix}
use r_wg.Cidr.Mask.{covers}
use r_wg.Cidr.Covers.{covered, IsNormal, IsBlock}
use r_wg.Cidr.Normalize.{normalize_prefixes}
use r_wg.Cidr.Normalize.Cover.{normalize-IsNormal, normalize-IsBlock, covered-normalize}
use r_wg.Cidr.Exclude.{
  within, subtract_each, subtract_all, exclude_loop, compute_cidr_exclusion, CidrExclusionResult,
  exclusion_result,
}
use r_wg.Cidr.Exclude.Prefix.{Removes, subtract_prefix-Removes, within-eq-ok}

-- `Removes` for a list of prefixes.
record RemovesEach (ps : List AllowedIp) (q : AllowedIp) (out out' : List AllowedIp) : Type 0 where
  normal : All IsNormal out → All IsNormal out'
  sound :
      (a : IpAddr)
      → covered out' a ≡ true
      → (covered out a ≡ true) ⊎ ((covered ps a ≡ true) × (covers q a ≡ false))
  keeps : (a : IpAddr) → covered out a ≡ true → covered out' a ≡ true
  complete :
      IsBlock q → (a : IpAddr) → covered ps a ≡ true → covers q a ≡ false → covered out' a ≡ true

each_cons :
    (p : AllowedIp) (ps : List AllowedIp) (q : AllowedIp) {out mid out' : List AllowedIp}
    → Removes p q out mid
    → RemovesEach ps q mid out'
    → RemovesEach (p ∷ ps) q out out'
each_cons p ps q r s = record {
  normal = λ g. s.normal (r.normal g);
  sound = λ a k. elim (s.sound a k) [
    | inr (c, m) ↦ inr (ground arith, m)
    | inl k' ↦ elim (r.sound a k') [ inl k'' ↦ inl k'' | inr (c, m) ↦ inr (ground arith, m) ]
  ];
  keeps = λ a k. s.keeps a (r.keeps a k);
  complete = λ b a k m. elim (Bool-cases (covers p a)) [
    | inl c ↦ s.keeps a (r.complete b a c m)
    | inr c ↦ s.complete b a (ground arith) m
  ];
}

subtract_each-RemovesEach :
    (ps : List AllowedIp) (q : AllowedIp) (out : List AllowedIp) (limit : ℕ) (out' : List AllowedIp)
    → All IsNormal ps
    → IsPrefix q
    → subtract_each ps q out limit ≡ ok out'
    → RemovesEach ps q out out'
unfolding subtract_each
subtract_each-RemovesEach [] q out limit out' hp hq h =
    subst (RemovesEach [] q out) (ok-injective h) (record {
      normal = λ g. g;
      sound = λ a k. inl k;
      keeps = λ a k. k;
      complete = λ b a k m. absurd (false≢true k);
    })
subtract_each-RemovesEach (p ∷ ps) q out limit out' hp hq h =
    let (mid, first, rest) = >>=-eq-ok _ _ h in
    each_cons p ps q (subtract_prefix-Removes p q out limit hp.0 hq first)
      (subtract_each-RemovesEach ps q mid limit out' hp.1 hq rest)

-- `out` is what `ps` covers outside all of `qs`.
pub record IsDifference (ps qs out : List AllowedIp) : Type 0 where
  pub normal : All IsNormal out
  pub sound : (a : IpAddr) → covered out a ≡ true → (covered ps a ≡ true) × (covered qs a ≡ false)
  pub complete :
      All IsBlock qs
      → (a : IpAddr) → covered ps a ≡ true
      → covered qs a ≡ false
      → covered out a ≡ true

-- The early exit.
nothing_left :
    (ps : List AllowedIp) (q : AllowedIp) (qs next : List AllowedIp)
    → is_empty next ≡ true
    → RemovesEach ps q [] next
    → IsDifference ps (q ∷ qs) next
nothing_left ps q qs [] e r = record {
  normal = tt;
  sound = λ a k. absurd (false≢true k);
  complete = λ b a k m. r.complete b.0 a k (ground arith);
}
nothing_left ps q qs (x ∷ next) e r = absurd (false≢true e)

then_rest :
    (ps : List AllowedIp) (q : AllowedIp) (qs : List AllowedIp) {next out : List AllowedIp}
    → RemovesEach ps q [] next
    → IsDifference next qs out
    → IsDifference ps (q ∷ qs) out
then_rest ps q qs r d = record {
  normal = d.normal;
  sound = λ a k.
      let (n, m) = d.sound a k in
      elim (r.sound a n) [ inl k' ↦ absurd (false≢true k') | inr (c, m') ↦ (c, ground arith) ];
  complete = λ b a k m. d.complete b.1 a (r.complete b.0 a k (ground arith)) (ground arith);
}

subtract_all-IsDifference :
    (ps qs : List AllowedIp) (limit : ℕ) (out : List AllowedIp)
    → All IsNormal ps
    → All IsPrefix qs
    → subtract_all ps qs limit ≡ ok out
    → IsDifference ps qs out
unfolding subtract_all
subtract_all-IsDifference ps [] limit out hp hq h =
    subst (IsDifference ps []) (ok-injective h)
      (record { normal = hp; sound = λ a k. (k, refl); complete = λ b a k m. k })
subtract_all-IsDifference ps (q ∷ qs) limit out hp hq h =
    let (next, first, rest) = >>=-eq-ok _ _ h in
    let r = subtract_each-RemovesEach ps q [] limit next hp hq.0 first in
    elim (Bool-cases (is_empty next)) [
      | inl e ↦
          subst (IsDifference ps (q ∷ qs)) (ok-injective (rw e at rest))
            (nothing_left ps q qs next e r)
      | inr e ↦
          let d = subtract_all-IsDifference next qs limit out (r.normal tt) hq.1 (rw e at rest) in
          then_rest ps q qs r d
    ]

-- Differences of two lists add up.
IsDifference-append :
    (ps rs qs : List AllowedIp) {out out' : List AllowedIp}
    → IsDifference ps qs out
    → IsDifference rs qs out'
    → IsDifference (ps ++ rs) qs (out ++ out')
IsDifference-append ps rs qs {out} {out'} d e = record {
  normal = All-append IsNormal out out' d.normal e.normal;
  sound = λ a k. elim (Bool-cases (covered out a)) [
    | inl c ↦
        let (l, m) = d.sound a c in (rw (any-append (λ p. covers p a) ps rs) (ground arith), m)
    | inr c ↦
        let (l, m) = e.sound a (ground (arith, any-append (λ p. covers p a) out out')) in
        (rw (any-append (λ p. covers p a) ps rs) (ground arith), m)
  ];
  complete = λ b a k m.
      rw (any-append (λ p. covers p a) out out') (elim (Bool-cases (covered ps a)) [
        | inl c ↦ let k' = d.complete b a c m in ground arith
        | inr c ↦
            let k' = e.complete b a (ground (arith, any-append (λ p. covers p a) ps rs)) m in
            ground arith
      ]);
}

-- The loop over the includes extends the difference that it starts from.
exclude_loop-IsDifference :
    (done kept ps qs : List AllowedIp) (limit : ℕ) (out : List AllowedIp)
    → IsDifference done qs kept
    → All IsNormal ps
    → All IsPrefix qs
    → exclude_loop kept ps qs limit ≡ ok out
    → IsDifference (done ++ ps) qs out
unfolding exclude_loop
exclude_loop-IsDifference done kept [] qs limit out d hp hq h =
    rw append-nil (subst (IsDifference done qs) (ok-injective h) d)
exclude_loop-IsDifference done kept (p ∷ ps) qs limit out d hp hq h =
    let (current, first, rest) =
      >>=-eq-ok (subtract_all (p ∷ []) qs limit)
        (λ current. within limit (kept ++ current) >>= λ r. exclude_loop r ps qs limit) h in
    let (kept', second, last) =
      >>=-eq-ok (within limit (kept ++ current)) (λ r. exclude_loop r ps qs limit) rest in
    let step = subtract_all-IsDifference (p ∷ []) qs limit current (hp.0, tt) hq first in
    let whole =
      subst (IsDifference (done ++ p ∷ []) qs) (within-eq-ok limit _ second)
        (IsDifference-append done (p ∷ []) qs d step) in
    rw append_assoc at
      (exclude_loop-IsDifference (done ++ p ∷ []) kept' ps qs limit out whole hp.1 hq last)

-- What a result of `compute_cidr_exclusion` holds.
pub record IsExclusion (includes excludes : List AllowedIp) (r : CidrExclusionResult) : Type 0 where
  pub canonical : All IsNormal r.remaining
  pub sound :
      (a : IpAddr)
      → covered r.remaining a ≡ true
      → (covered includes a ≡ true) × (covered excludes a ≡ false)
  pub complete :
      All IsBlock excludes
      → (a : IpAddr) → covered r.remaining a ≡ (covered includes a && not (covered excludes a))

All-prefix : (ps : List AllowedIp) → All IsNormal ps → All IsPrefix ps
All-prefix [] h = tt
All-prefix (p ∷ ps) h = (h.0.prefix, All-prefix ps h.1)

module _ (includes excludes remaining : List AllowedIp) (hi : All IsPrefix includes)
    (he : All IsPrefix excludes)
    (d : IsDifference
      (normalize_prefixes includes).0
      (normalize_prefixes excludes).0
      remaining) where
  normalized_sound :
      (a : IpAddr)
      → covered (normalize_prefixes remaining).0 a ≡ true
      → (covered includes a ≡ true) × (covered excludes a ≡ false)
  normalized_sound a k =
      let n = covered-normalize remaining a (All-prefix remaining d.normal) in
      let (c, m) = d.sound a (sym n ∙ k) in
      (sym (covered-normalize includes a hi) ∙ c, sym (covered-normalize excludes a he) ∙ m)

  normalized_complete :
      All IsBlock excludes
      → (a : IpAddr) → (covered includes a && not (covered excludes a)) ≡ true
      → covered (normalize_prefixes remaining).0 a ≡ true
  normalized_complete b a k =
      let (ci, ce) = (&&_iff _ _).0 k in
      covered-normalize remaining a (All-prefix remaining d.normal)
      ∙ d.complete (normalize-IsBlock excludes he b) a (covered-normalize includes a hi ∙ ci)
          (covered-normalize excludes a he ∙ ground arith)

-- On lists that the parser accepts, the remaining prefixes are canonical and cover only included
-- addresses that no exclude covers; they cover all of those, if no exclude is a single address.
pub compute_cidr_exclusion-IsExclusion :
    (includes excludes : List AllowedIp) (limit : ℕ) (r : CidrExclusionResult)
    → All IsPrefix includes
    → All IsPrefix excludes
    → compute_cidr_exclusion includes excludes limit ≡ ok r
    → IsExclusion includes excludes r
unfolding compute_cidr_exclusion
compute_cidr_exclusion-IsExclusion includes excludes limit r hi he h =
    let inc = normalize_prefixes includes in
    let exc = normalize_prefixes excludes in
    let (remaining, first, rest) =
      >>=-eq-ok (exclude_loop [] inc.0 exc.0 limit)
        (λ remaining. within limit (normalize_prefixes remaining).0 >>= λ _.
          ok (exclusion_result includes excludes inc exc (normalize_prefixes remaining)))
        h in
    let (_, _, last) =
      >>=-eq-ok (within limit (normalize_prefixes remaining).0)
        (λ _. ok (exclusion_result includes excludes inc exc (normalize_prefixes remaining)))
        rest in
    let d =
      exclude_loop-IsDifference [] [] inc.0 exc.0 limit remaining
        (record { normal = tt; sound = λ a k. absurd (false≢true k); complete = λ b a k m. k })
        (normalize-IsNormal includes hi) (All-prefix exc.0 (normalize-IsNormal excludes he))
        first in
    subst (IsExclusion includes excludes) (ok-injective last) (record {
      canonical = normalize-IsNormal remaining (All-prefix remaining d.normal);
      sound = normalized_sound includes excludes remaining hi he d;
      complete = λ b a.
          Bool_ext _ _
            (λ k.
              let (ci, ce) = normalized_sound includes excludes remaining hi he d a k in
              rw (ci, ce))
            (normalized_complete includes excludes remaining hi he d b a);
    })
