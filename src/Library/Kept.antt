-- ===== src/Library/Kept.antt =====
-- What a deletion deletes, skips and selects.
use mathlib.Core.Path.{◌≡◌, refl, ap, ◌∙◌, sym, subst}
use mathlib.Core.Logic.{◌⊎◌, inl, inr}
use mathlib.Core.List.{List, [], ◌∷◌}
use native.Mathlib.Omega.{arith}
use r_wg.Base.{
  ℕ, zero, suc, ◌-◌, ◌<◌, min, Bool, true, false, not, ◌&&◌, Option, none, some, any, is_empty,
  ◌==◌, ==_refl, if◌then◌else◌, Bool-cases, get_elem?, length,
}
use r_wg.Config.{Text}
use r_wg.Library.{StoredConfig}
use r_wg.Library.Deletes.{
  DeletePolicy, DeleteConfigsRequest, DeleteConfigsPlan, DeleteConfigsDecision, is_requested,
  is_running, skip, drop, map_some, delete_loop, decide_delete, plan_delete, PostDeleteSelection,
  fallback, select, keep_or, plan_post_delete_selection,
}

-- The configurations that are requested and do not run.
abbrev pub deletable : DeleteConfigsRequest → List StoredConfig → List StoredConfig
deletable r [] = []
deletable r (c ∷ cs) =
    if is_requested r c && not (is_running r c) then c ∷ deletable r cs else deletable r cs

-- The names of those that are requested and run.
abbrev pub running_names : DeleteConfigsRequest → List StoredConfig → List Text
running_names r [] = []
running_names r (c ∷ cs) =
    if is_requested r c && is_running r c then c.name ∷ running_names r cs else running_names r cs

-- The loop, when the policy skips what runs.
skip_lem :
    (r : DeleteConfigsRequest) (cs : List StoredConfig)
    → r.policy ≡ DeletePolicy.skip_running
    → delete_loop r cs
      ≡ some (record { deleted = deletable r cs; skipped_running = running_names r cs })
unfolding delete_loop
skip_lem r [] h = refl
skip_lem r (c ∷ cs) h = elim (Bool-cases (is_requested r c)) [
  | inr e ↦ rw e (skip_lem r cs h)
  | inl e ↦ elim (Bool-cases (is_running r c)) [
    | inl f ↦ rw (e, f, h) (ap (λ p. map_some (skip c) p) (skip_lem r cs h))
    | inr f ↦ rw (e, f) (ap (λ p. map_some (drop c) p) (skip_lem r cs h))
  ]
]

drop_lem :
    (b : Bool) (c : StoredConfig) (cs : List StoredConfig)
    → map_some (drop c) (if b then some (record { deleted = cs; skipped_running = [] }) else none)
      ≡ (if b then some (record { deleted = c ∷ cs; skipped_running = [] }) else none)
drop_lem true c cs = refl
drop_lem false c cs = refl

-- The loop, when the policy stops at what runs.
block_lem :
    (r : DeleteConfigsRequest) (cs : List StoredConfig)
    → r.policy ≡ DeletePolicy.block_running
    → delete_loop r cs ≡ (
        if is_empty (running_names r cs)
        then some (record { deleted = deletable r cs; skipped_running = [] })
        else none)
unfolding delete_loop
block_lem r [] h = refl
block_lem r (c ∷ cs) h = elim (Bool-cases (is_requested r c)) [
  | inr e ↦ rw e (block_lem r cs h)
  | inl e ↦ elim (Bool-cases (is_running r c)) [
    | inl f ↦ rw (e, f, h) refl
    | inr f ↦
        rw (e, f)
          (ap (λ p. map_some (drop c) p) (block_lem r cs h)
            ∙ drop_lem (is_empty (running_names r cs)) c (deletable r cs))
  ]
]

some-injective : {A : Type 0} {a b : A} → ◌≡◌ {A = Option A} (some a) (some b) → a ≡ b
some-injective h = cc h

is_empty_lem : (names : List Text) → is_empty names ≡ true → names ≡ []
is_empty_lem [] h = refl
is_empty_lem (n ∷ ns) h = absurd (cc)

policy-cases :
    (d : DeletePolicy) → (d ≡ DeletePolicy.block_running) ⊎ (d ≡ DeletePolicy.skip_running)
policy-cases DeletePolicy.block_running = inl refl
policy-cases DeletePolicy.skip_running = inr refl

decided_lem :
    (o : Option DeleteConfigsPlan) (p : DeleteConfigsPlan)
    → decide_delete o ≡ DeleteConfigsDecision.delete p
    → o ≡ some p
decided_lem none p h = absurd (cc)
decided_lem (some q) p h = ground (arith, h)

abbrev IsPlanned : DeleteConfigsRequest → DeleteConfigsPlan → Type 0
IsPlanned r p =
    (p.deleted ≡ deletable r r.existing)
    × (p.skipped_running ≡ running_names r r.existing)
    × (r.policy ≡ DeletePolicy.block_running → running_names r r.existing ≡ [])

planned_lem :
    (r : DeleteConfigsRequest) (p : DeleteConfigsPlan)
    → delete_loop r r.existing ≡ some p
    → IsPlanned r p
planned_lem r p h = elim (policy-cases r.policy) [
  | inr k ↦
      let e = some-injective (sym (skip_lem r r.existing k) ∙ h) in
      (sym (ap (λ q. q.deleted) e), sym (ap (λ q. q.skipped_running) e), λ b. absurd (cc))
  | inl k ↦ elim (Bool-cases (is_empty (running_names r r.existing))) [
    | inl f ↦
        let e = some-injective (
          sym (
            block_lem r r.existing k
            ∙ ap
                (λ b.
                  if b
                  then some (record { deleted = deletable r r.existing; skipped_running = [] })
                  else none)
                f)
          ∙ h) in
        (
          sym (ap (λ q. q.deleted) e),
          sym (ap (λ q. q.skipped_running) e) ∙ sym (is_empty_lem _ f),
          λ _. is_empty_lem _ f,
        )
    | inr f ↦
        let e =
          sym (
            block_lem r r.existing k
            ∙ ap
                (λ b.
                  if b
                  then some (record { deleted = deletable r r.existing; skipped_running = [] })
                  else none)
                f)
          ∙ h in
        absurd (cc)
  ]
]

-- A deletion that is planned deletes exactly the requested configurations that do not run, in
-- their order. What it skips are the requested ones that run, and under the policy that blocks
-- there are none of those.
pub plan_delete-eq-delete :
    (r : DeleteConfigsRequest) (p : DeleteConfigsPlan)
    → plan_delete r ≡ DeleteConfigsDecision.delete p
    → (p.deleted ≡ deletable r r.existing)
      × (p.skipped_running ≡ running_names r r.existing)
      × (r.policy ≡ DeletePolicy.block_running → running_names r r.existing ≡ [])
unfolding plan_delete
plan_delete-eq-delete r p h = elim (Bool-cases (is_empty r.requested_ids)) [
  | inl e ↦ absurd (ground (arith, h, e))
  | inr e ↦ planned_lem r p (
      decided_lem (delete_loop r r.existing) p (
        subst
          (λ b.
            (if b
              then DeleteConfigsDecision.no_selection
              else decide_delete (delete_loop r r.existing))
            ≡ DeleteConfigsDecision.delete p)
          e h))
]

abbrev pub IsAmong : PostDeleteSelection → List ℕ → Type 0
IsAmong PostDeleteSelection.clear remaining = Unit
IsAmong (PostDeleteSelection.keep i) remaining = any (λ j. i == j) remaining ≡ true
IsAmong (PostDeleteSelection.select_fallback i) remaining = any (λ j. i == j) remaining ≡ true

-- An index in range is an element that the list has.
in_range :
    (xs : List ℕ) (n : ℕ)
    → n < length xs
    → (i : ℕ) × (get_elem? xs n ≡ some i) × (any (λ j. i == j) xs ≡ true)
in_range [] n h = absurd (omega (arith, h))
in_range (x ∷ xs) zero h = (x, refl, ground (arith, ==_refl x))
in_range (x ∷ xs) (suc n) h =
    let (i, e, m) = in_range xs n (omega arith) in (i, e, ground (arith, m))

abbrev IsSafe : Option PostDeleteSelection → List ℕ → Type 0
IsSafe o remaining = (d : PostDeleteSelection) × (o ≡ some d) × IsAmong d remaining

fallback-IsSafe :
    (x : ℕ) (xs : List ℕ) (index : Option ℕ) → IsSafe (fallback (x ∷ xs) index) (x ∷ xs)
fallback-IsSafe x xs none = (PostDeleteSelection.clear, refl, tt)
fallback-IsSafe x xs (some n) =
    let (i, e, m) = in_range (x ∷ xs) (min n (length (x ∷ xs) - 1)) (omega arith) in
    (PostDeleteSelection.select_fallback i, ap select e, m)

keep_or-IsSafe :
    (remaining : List ℕ) (selected : Option ℕ) (other : Option PostDeleteSelection)
    → IsSafe other remaining
    → IsSafe (keep_or remaining selected other) remaining
keep_or-IsSafe remaining none other h = h
keep_or-IsSafe remaining (some id) other h = elim (Bool-cases (any (λ i. id == i) remaining)) [
  | inl e ↦ (PostDeleteSelection.keep id, rw e refl, e)
  | inr e ↦ rw e h
]

-- A selection after a deletion never reads out of range: it keeps or picks one of the remaining
-- configurations, or clears.
pub plan_post_delete_selection-IsSafe :
    (remaining : List ℕ) (selected index : Option ℕ)
    → (d : PostDeleteSelection) × (plan_post_delete_selection remaining selected index ≡ some d)
      × IsAmong d remaining
unfolding plan_post_delete_selection
plan_post_delete_selection-IsSafe [] selected index = (PostDeleteSelection.clear, refl, tt)
plan_post_delete_selection-IsSafe (x ∷ xs) selected index =
    keep_or-IsSafe (x ∷ xs) selected (fallback (x ∷ xs) index) (fallback-IsSafe x xs index)
