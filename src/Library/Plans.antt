-- ===== src/Library/Plans.antt =====
-- `validate_save_request`, `plan_save_target` and `plan_rename`
use mathlib.Core.List.{List}
use r_wg.Base.{
  ℕ, Bool, true, false, not, ◌&&◌, Option, none, some, any, find, is_empty, ◌==◌, if◌then◌else◌,
}
use r_wg.Base.Result.{Result, ok, err, ◌>>=◌}
use r_wg.Base.Trim.{trim}
use r_wg.Config.{Text}
use r_wg.Library.{StoredConfig, ConfigSourceKind, text_eq, has_id}

pub data SaveConfigError : Type 0 where
  missing_name missing_text duplicate_name : SaveConfigError

pub record SaveTargetRequest : Type 0 where
  pub requested_name : Text
  pub text : Text
  pub source_id : Option ℕ
  pub force_new : Bool
  pub existing : List StoredConfig
  pub next_id : ℕ
  pub next_storage_path : Text

pub record SaveTargetPlan : Type 0 where
  pub id : ℕ
  pub name : Text
  pub storage_path : Text
  pub source : ConfigSourceKind
  pub is_new : Bool

pub record RenameConfigRequest : Type 0 where
  pub requested_name : Text
  pub source_id : Option ℕ
  pub selected_id : Option ℕ
  pub existing : List StoredConfig

pub data RenameConfigDecision : Type 0 where
  unchanged : RenameConfigDecision
  rename : ℕ → Text → Text → RenameConfigDecision

pub data RenameConfigError : Type 0 where
  missing_name missing_selection missing_config duplicate_name : RenameConfigError

-- The name, if it may be saved.
unfoldable pub validate_save_request :
    Text → Text → Option ℕ → List StoredConfig → Result SaveConfigError Text
unfolding trim
validate_save_request requested text source existing =
    let name = trim requested in
    if is_empty name
    then err SaveConfigError.missing_name
    else (if is_empty (trim text)
        then err SaveConfigError.missing_text
        else (if any (λ c. text_eq c.name name && not (has_id source c.id)) existing
            then err SaveConfigError.duplicate_name
            else ok name))

abbrev pub saved_source : SaveTargetRequest → Option ℕ
saved_source r = if r.force_new then none else r.source_id

abbrev pub target_of : SaveTargetRequest → Text → Option StoredConfig → SaveTargetPlan
target_of r name (some c) = record {
  id = c.id;
  name = name;
  storage_path = c.storage_path;
  source = c.source;
  is_new = false;
}
target_of r name none = record {
  id = r.next_id;
  name = name;
  storage_path = r.next_storage_path;
  source = ConfigSourceKind.paste;
  is_new = true;
}

abbrev pub with_id : Option ℕ → List StoredConfig → Option StoredConfig
with_id source existing = find (λ c. has_id source c.id) existing

unfoldable pub plan_save_target : SaveTargetRequest → Result SaveConfigError SaveTargetPlan
unfolding validate_save_request
plan_save_target r =
    validate_save_request r.requested_name r.text (saved_source r) r.existing >>= λ name.
    ok (target_of r name (with_id (saved_source r) r.existing))

abbrev pub or_else : Option ℕ → Option ℕ → Option ℕ
or_else (some a) b = some a
or_else none b = b

abbrev pub rename_target :
    Text
    → ℕ
    → List StoredConfig
    → Option StoredConfig
    → Result RenameConfigError RenameConfigDecision
rename_target name id existing none = err RenameConfigError.missing_config
rename_target name id existing (some target) =
    if text_eq target.name name
    then ok RenameConfigDecision.unchanged
    else (if any (λ c. not (c.id == id) && text_eq c.name name) existing
        then err RenameConfigError.duplicate_name
        else ok (RenameConfigDecision.rename id target.name name))

abbrev pub rename_selected :
    Text → List StoredConfig → Option ℕ → Result RenameConfigError RenameConfigDecision
rename_selected name existing none = err RenameConfigError.missing_selection
rename_selected name existing (some id) =
    rename_target name id existing (find (λ c. c.id == id) existing)

unfoldable pub plan_rename : RenameConfigRequest → Result RenameConfigError RenameConfigDecision
unfolding trim
plan_rename r =
    let name = trim r.requested_name in
    if is_empty name
    then err RenameConfigError.missing_name
    else rename_selected name r.existing (or_else r.source_id r.selected_id)
