-- ===== src/Library/Rename.antt =====
-- A planned rename keeps the names apart.
use mathlib.Core.Path.{◌≡◌, refl, subst}
use mathlib.Core.Logic.{inl, inr}
use mathlib.Core.List.{List}
use native.Mathlib.Omega.{arith}
use r_wg.Base.{
  ℕ, false, not, ◌&&◌, Option, none, some, any, find, is_empty, ◌==◌, if◌then◌else◌, Bool-cases,
}
use r_wg.Base.Result.{ok, err}
use r_wg.Base.Trim.{trim}
use r_wg.Config.{Text}
use r_wg.Library.{StoredConfig, text_eq}
use r_wg.Library.Plans.{
  RenameConfigRequest, RenameConfigDecision, RenameConfigError, or_else, rename_target,
  rename_selected, plan_rename,
}

-- The rename is of a stored configuration, and no other one has the new name.
abbrev pub IsApart : List StoredConfig → ℕ → Text → Text → Type 0
IsApart existing id previous name =
    (any (λ c. not (c.id == id) && text_eq c.name name) existing ≡ false)
    × (is_empty name ≡ false)
    × ((c : StoredConfig) × (find (λ c. c.id == id) existing ≡ some c)
        × (c.name ≡ previous)
        × (text_eq c.name name ≡ false))

rename_target_lem :
    (trimmed : Text) (i : ℕ) (existing : List StoredConfig) (target : Option StoredConfig) (id : ℕ)
    (previous name : Text)
    → is_empty trimmed ≡ false
    → find (λ c. c.id == i) existing ≡ target
    → rename_target trimmed i existing target ≡ ok (RenameConfigDecision.rename id previous name)
    → IsApart existing id previous name
rename_target_lem trimmed i existing none id previous name t f h = absurd (cc)
rename_target_lem trimmed i existing (some c) id previous name t f h =
    elim (Bool-cases (text_eq c.name trimmed)) [
      | inl e ↦ absurd (ground (arith, h, e))
      | inr e ↦ elim (Bool-cases (any (λ c. not (c.id == i) && text_eq c.name trimmed) existing)) [
        | inl d ↦ absurd (ground (arith, h, e, d))
        | inr d ↦
            let same : RenameConfigDecision.rename i c.name trimmed
                ≡ RenameConfigDecision.rename id previous name =
              cc in
            let new_id : i ≡ id = cc in
            let old_name : c.name ≡ previous = cc in
            let new_name : trimmed ≡ name = cc in
            subst (λ j. IsApart existing j previous name) new_id
              (subst (λ p. IsApart existing i p name) old_name
                (subst (λ n. IsApart existing i c.name n) new_name (d, t, (c, f, refl, e))))
      ]
    ]

rename_selected_lem :
    (trimmed : Text) (existing : List StoredConfig) (chosen : Option ℕ) (id : ℕ)
    (previous name : Text)
    → is_empty trimmed ≡ false
    → rename_selected trimmed existing chosen ≡ ok (RenameConfigDecision.rename id previous name)
    → IsApart existing id previous name
rename_selected_lem trimmed existing none id previous name t h = absurd (cc)
rename_selected_lem trimmed existing (some i) id previous name t h =
    rename_target_lem trimmed i existing (find (λ c. c.id == i) existing) id previous name t refl h

-- A rename that is planned is of a stored configuration whose name it changes, to a name that is
-- not empty and that no configuration of another number has.
pub plan_rename-IsApart :
    (r : RenameConfigRequest) (id : ℕ) (previous name : Text)
    → plan_rename r ≡ ok (RenameConfigDecision.rename id previous name)
    → IsApart r.existing id previous name
unfolding plan_rename
plan_rename-IsApart r id previous name h = elim (Bool-cases (is_empty (trim r.requested_name))) [
  | inl e ↦ absurd (ground (arith, h, e))
  | inr e ↦
      rename_selected_lem (trim r.requested_name) r.existing (or_else r.source_id r.selected_id) id
        previous name e
        (subst
          (λ b.
            (if b
              then err RenameConfigError.missing_name
              else rename_selected (trim r.requested_name) r.existing
                  (or_else r.source_id r.selected_id))
            ≡ ok (RenameConfigDecision.rename id previous name))
          e h)
]
