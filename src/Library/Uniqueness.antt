-- ===== src/Library/Uniqueness.antt =====
-- Saving and renaming keep the names apart.
use mathlib.Core.Path.{◌≡◌, refl, ap, ◌∙◌, sym, subst}
use mathlib.Core.Logic.{inl, inr}
use mathlib.Core.List.{List, [], ◌∷◌}
use native.Mathlib.Omega.{arith}
use r_wg.Base.{
  ℕ, Bool, true, false, not, ◌&&◌, Option, none, some, any, is_empty, ==_iff, zero, suc, get_elem?,
  if◌then◌else◌, Bool-cases,
}
use r_wg.Base.Result.{ok, err, >>=-eq-ok, ok-injective}
use r_wg.Base.Trim.{trim}
use r_wg.Config.{Text}
use r_wg.Library.{StoredConfig, text_eq, has_id}
use r_wg.Library.Plans.{
  SaveTargetRequest, SaveTargetPlan, validate_save_request, SaveConfigError, saved_source,
  target_of, with_id, plan_save_target,
}

some-injective : {A : Type 0} {a b : A} → ◌≡◌ {A = Option A} (some a) (some b) → a ≡ b
some-injective h = cc h

-- No element that the list holds passes a test that none passes.
any_none :
    {A : Type 0} (f : A → Bool) (xs : List A) (n : ℕ) (x : A)
    → any f xs ≡ false
    → get_elem? xs n ≡ some x
    → f x ≡ false
any_none f [] n x h k = absurd (cc)
any_none f (y ∷ ys) zero x h k = ground (arith, h, ap f (some-injective k))
any_none f (y ∷ ys) (suc n) x h k = any_none f ys n x (ground (arith, h)) k

checks_lem :
    (a b : Bool) (source : Option ℕ) (existing : List StoredConfig) (trimmed name : Text)
    → (if a
        then err SaveConfigError.missing_name
        else (if b
            then err SaveConfigError.missing_text
            else (if any (λ c. text_eq c.name trimmed && not (has_id source c.id)) existing
                then err SaveConfigError.duplicate_name
                else ok trimmed)))
      ≡ ok name
    → any (λ c. text_eq c.name name && not (has_id source c.id)) existing ≡ false
checks_lem true b source existing trimmed name h = absurd (cc)
checks_lem false true source existing trimmed name h = absurd (cc)
checks_lem false false source existing trimmed name h =
    elim (Bool-cases (any (λ c. text_eq c.name trimmed && not (has_id source c.id)) existing)) [
      | inl e ↦ absurd (cc)
      | inr e ↦
          let k : trimmed ≡ name = ok-injective (
            subst (λ b. (if b then err SaveConfigError.duplicate_name else ok trimmed) ≡ ok name) e
              h) in
          subst (λ s. any (λ c. text_eq c.name s && not (has_id source c.id)) existing ≡ false) k e
    ]

name_lem :
    (r : SaveTargetRequest) (name : Text) (c : Option StoredConfig)
    → (target_of r name c).name ≡ name
name_lem r name none = refl
name_lem r name (some c) = refl

validate_lem :
    (requested text : Text) (source : Option ℕ) (existing : List StoredConfig) (name : Text)
    → validate_save_request requested text source existing ≡ ok name
    → any (λ c. text_eq c.name name && not (has_id source c.id)) existing ≡ false
unfolding validate_save_request
validate_lem requested text source existing name h =
    checks_lem (is_empty (trim requested)) (is_empty (trim text)) source existing (trim requested)
      name h

has_id_lem : (source : Option ℕ) (i j : ℕ) → has_id source i ≡ true → has_id source j ≡ true → i ≡ j
has_id_lem none i j h k = absurd (cc)
has_id_lem (some n) i j h k = omega (arith, (==_iff n i).0 h, (==_iff n j).0 k)

-- What is looked up by the number of a stored configuration has that number.
with_id_lem :
    (r : SaveTargetRequest) (name : Text) (source : Option ℕ) (existing : List StoredConfig) (n : ℕ)
    (c : StoredConfig)
    → get_elem? existing n ≡ some c
    → has_id source c.id ≡ true
    → ((target_of r name (with_id source existing)).is_new ≡ false)
      × (c.id ≡ (target_of r name (with_id source existing)).id)
with_id_lem r name source [] n c m h = absurd (cc)
with_id_lem r name source (d ∷ ds) zero c m h =
    let same : d ≡ c = some-injective m in
    rw (ap (λ e. has_id source e.id) same ∙ h) (refl, sym (ap (λ e. e.id) same))
with_id_lem r name source (d ∷ ds) (suc n) c m h = elim (Bool-cases (has_id source d.id)) [
  | inl e ↦ rw e (refl, has_id_lem source c.id d.id h e)
  | inr e ↦ rw e (with_id_lem r name source ds n c m h)
]

-- A save that is planned takes a name that no other stored configuration has: a stored
-- configuration of that name is the one that the plan overwrites.
pub plan_save_target-IsUnique :
    (r : SaveTargetRequest) (p : SaveTargetPlan) (n : ℕ) (c : StoredConfig)
    → plan_save_target r ≡ ok p
    → get_elem? r.existing n ≡ some c
    → text_eq c.name p.name ≡ true
    → (p.is_new ≡ false) × (c.id ≡ p.id)
unfolding plan_save_target
plan_save_target-IsUnique r p n c h m t =
    let (name, v, e) =
      >>=-eq-ok (validate_save_request r.requested_name r.text (saved_source r) r.existing)
        (λ name. ok (target_of r name (with_id (saved_source r) r.existing))) h in
    let same : target_of r name (with_id (saved_source r) r.existing) ≡ p = ok-injective e in
    let none_else =
      any_none (λ c. text_eq c.name name && not (has_id (saved_source r) c.id)) r.existing n c
        (validate_lem r.requested_name r.text (saved_source r) r.existing name v) m in
    let named : text_eq c.name name ≡ true =
      subst (λ s. text_eq c.name s ≡ true)
        (sym (ap (λ q. q.name) same) ∙ name_lem r name (with_id (saved_source r) r.existing)) t in
    subst (λ q. (q.is_new ≡ false) × (c.id ≡ q.id)) same
      (with_id_lem r name (saved_source r) r.existing n c m (ground (arith, none_else, named)))
