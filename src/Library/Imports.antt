-- ===== src/Library/Imports.antt =====
-- The import batch: `begin_import_batch` to `finish_import_batch`. Messages are left out but for
-- whether there is one.
use mathlib.Core.Path.{◌≡◌, refl}
use mathlib.Core.List.{List, [], ◌∷◌}
use native.Mathlib.Omega.{arith}
use r_wg.Base.{ℕ, suc, ◌+◌, Bool, not, ◌&&◌, Option, none, some, length, ltb, ◌==◌}
use r_wg.Config.{Text}
use r_wg.Library.{ConfigSourceKind}
use r_wg.Library.Names.{reserve_unique_name}

pub record ImportBatchState : Type 0 where
  pub names_in_use : List Text
  pub processed : ℕ
  pub total : ℕ
  pub imported : ℕ
  pub failed : ℕ
  pub last_error : Option Text
  pub last_imported_id : Option ℕ

pub record ImportedConfigRecord : Type 0 where
  pub id : ℕ
  pub name : Text
  pub origin_path : Text
  pub storage_path : Text
  pub source : ConfigSourceKind

pub record FinalizedImportBatch : Type 0 where
  pub imported : ℕ
  pub failed : ℕ
  pub should_persist : Bool
  pub selected_import_id : Option ℕ
  pub has_status : Bool
  pub has_error : Bool

unfoldable pub begin_import_batch : List Text → ℕ → ImportBatchState
begin_import_batch names total = record {
  names_in_use = names;
  processed = 0;
  total = total;
  imported = 0;
  failed = 0;
  last_error = none;
  last_imported_id = none;
}

unfoldable pub record_import_success :
    ImportBatchState → ImportedConfigRecord → ImportedConfigRecord × ImportBatchState
unfolding reserve_unique_name
record_import_success batch imported =
    let reserved = reserve_unique_name batch.names_in_use imported.name in
    (
      record imported { name = reserved.0 },
      record batch {
        imported = suc batch.imported;
        processed = suc batch.processed;
        names_in_use = reserved.1;
        last_imported_id = some imported.id;
      },
    )

unfoldable pub record_import_failure : ImportBatchState → Text → ImportBatchState
record_import_failure batch message = record batch {
  failed = suc batch.failed;
  processed = suc batch.processed;
  last_error = some message;
}

unfoldable pub finish_import_batch : ImportBatchState → FinalizedImportBatch
finish_import_batch batch = record {
  imported = batch.imported;
  failed = batch.failed;
  should_persist = ltb 0 batch.imported;
  selected_import_id = batch.last_imported_id;
  has_status = not (batch.imported == 0 && ltb 0 batch.failed);
  has_error = batch.imported == 0 && ltb 0 batch.failed;
}

-- One file of a batch: a parsed configuration, or the message of a failure.
pub data ImportStep : Type 0 where
  success : ImportedConfigRecord → ImportStep
  failure : Text → ImportStep

unfoldable pub import_step : ImportBatchState → ImportStep → ImportBatchState
unfolding record_import_success record_import_failure
import_step batch (ImportStep.success c) = (record_import_success batch c).1
import_step batch (ImportStep.failure m) = record_import_failure batch m

unfoldable pub import_all : ImportBatchState → List ImportStep → ImportBatchState
unfolding import_step
import_all batch [] = batch
import_all batch (s ∷ steps) = import_all (import_step batch s) steps

-- The last configuration that was imported, or the one before the batch.
abbrev pub last_id : Option ℕ → List ImportStep → Option ℕ
last_id before [] = before
last_id before (ImportStep.success c ∷ steps) = last_id (some c.id) steps
last_id before (ImportStep.failure m ∷ steps) = last_id before steps

import_all_lem :
    (batch : ImportBatchState) (steps : List ImportStep)
    → ((import_all batch steps).imported + (import_all batch steps).failed + batch.processed
        ≡ (import_all batch steps).processed + (batch.imported + batch.failed))
      × ((import_all batch steps).processed ≡ batch.processed + length steps)
      × ((import_all batch steps).last_imported_id ≡ last_id batch.last_imported_id steps)
unfolding import_all import_step record_import_success record_import_failure
import_all_lem batch [] = (omega arith, omega arith, refl)
import_all_lem batch (ImportStep.success c ∷ steps) =
    let h = import_all_lem (record_import_success batch c).1 steps in
    (omega (arith, h.0), omega (arith, h.1), h.2)
import_all_lem batch (ImportStep.failure m ∷ steps) =
    let h = import_all_lem (record_import_failure batch m) steps in
    (omega (arith, h.0), omega (arith, h.1), h.2)

-- A batch that has seen some files counts each of them once, as imported or as failed, and
-- selects the configuration that was imported last.
pub import_all-begin_import_batch :
    (names : List Text) (total : ℕ) (steps : List ImportStep)
    → ((import_all (begin_import_batch names total) steps).processed ≡ length steps)
      × ((finish_import_batch (import_all (begin_import_batch names total) steps)).imported
            + (finish_import_batch (import_all (begin_import_batch names total) steps)).failed
          ≡ length steps)
      × ((finish_import_batch
            (import_all (begin_import_batch names total) steps)).selected_import_id
          ≡ last_id none steps)
unfolding begin_import_batch finish_import_batch
import_all-begin_import_batch names total steps =
    let h = import_all_lem (begin_import_batch names total) steps in
    (omega (arith, h.1), omega (arith, h.0, h.1), h.2)
