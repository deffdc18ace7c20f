-- ===== src/Library.antt =====
-- src/application/config_library.rs: the decisions on the stored configurations. Names and paths
-- are texts; the reading and writing of files is left out.
pub mod Names
pub mod Plans
pub mod Imports
pub mod Fresh
pub mod Deletes
pub mod Uniqueness
pub mod Rename
pub mod Kept
use mathlib.Core.List.{List, [], ◌∷◌}
use r_wg.Base.{ℕ, Bool, true, false, ◌&&◌, Option, none, some, ◌==◌, any}
use r_wg.Config.{Text}

abbrev pub text_eq : Text → Text → Bool
text_eq [] [] = true
text_eq (a ∷ s) (b ∷ t) = a == b && text_eq s t
text_eq [] (b ∷ t) = false
text_eq (a ∷ s) [] = false

abbrev pub contains : List Text → Text → Bool
contains names name = any (text_eq name) names

pub data ConfigSourceKind : Type 0 where
  file paste : ConfigSourceKind

-- `ExistingStoredConfig`; an `ExistingConfigName` is its first two fields.
pub record StoredConfig : Type 0 where
  pub id : ℕ
  pub name : Text
  pub storage_path : Text
  pub source : ConfigSourceKind

abbrev pub has_id : Option ℕ → ℕ → Bool
has_id none i = false
has_id (some j) i = j == i
