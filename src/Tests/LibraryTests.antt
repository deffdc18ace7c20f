-- ===== src/Tests/LibraryTests.antt =====
-- Decisions on small libraries of stored configurations.
use mathlib.Core.Path.{◌≡◌, refl}
use mathlib.Core.List.{List, [], ◌∷◌}
use native.Mathlib.Omega.{arith}
use r_wg.Base.{◌+◌, true, false, none, some, length}
use r_wg.Base.Result.{ok}
use r_wg.Base.Trim.{is_whitespace, trim_start, trim}
use r_wg.Library.{StoredConfig, ConfigSourceKind, contains}
use r_wg.Library.Names.{decimal_loop, decimal, numbered, next_available_name}
use r_wg.Library.Fresh.{next_available_name-IsFresh}
use r_wg.Library.Plans.{
  RenameConfigRequest, RenameConfigDecision, plan_rename, SaveTargetRequest, SaveTargetPlan,
  validate_save_request, plan_save_target,
}
use r_wg.Library.Rename.{IsApart, plan_rename-IsApart}
use r_wg.Library.Uniqueness.{plan_save_target-IsUnique}
use r_wg.Library.Deletes.{
  DeletePolicy, DeleteConfigsRequest, DeleteConfigsPlan, DeleteConfigsDecision, PostDeleteSelection,
  delete_loop, plan_delete, plan_post_delete_selection,
}
use r_wg.Library.Kept.{
  IsAmong, deletable, running_names, plan_delete-eq-delete, plan_post_delete_selection-IsSafe,
}
use r_wg.Library.Imports.{
  ImportStep, begin_import_batch, finish_import_batch, import_all, last_id,
  import_all-begin_import_batch,
}
use r_wg.Session.{ToggleTunnelDecision, pending_start_target, decide_toggle, ToggleTunnelInput}

abbrev home : StoredConfig
home = record { id = 7; name = 104 ∷ []; storage_path = []; source = ConfigSourceKind.file }

abbrev work : StoredConfig
work = record { id = 8; name = 119 ∷ []; storage_path = []; source = ConfigSourceKind.paste }

is_free : contains ((104 ∷ []) ∷ []) (numbered (104 ∷ []) 2) ≡ false
unfolding numbered decimal decimal_loop
is_free = refl

next_available_name_example :
    contains ((104 ∷ []) ∷ []) (next_available_name ((104 ∷ []) ∷ []) (104 ∷ [])) ≡ false
next_available_name_example =
    next_available_name-IsFresh ((104 ∷ []) ∷ []) (104 ∷ []) 2 (omega arith) (omega arith) is_free

abbrev save : SaveTargetRequest
save = record {
  requested_name = 32 ∷ 119 ∷ [];
  text = 91 ∷ [];
  source_id = some 8;
  force_new = false;
  existing = home ∷ work ∷ [];
  next_id = 9;
  next_storage_path = [];
}

abbrev saved : SaveTargetPlan
saved = record {
  id = 8;
  name = 119 ∷ [];
  storage_path = [];
  source = ConfigSourceKind.paste;
  is_new = false;
}

is_saved : plan_save_target save ≡ ok saved
unfolding plan_save_target validate_save_request trim trim_start is_whitespace
is_saved = refl

plan_save_target_example : (saved.is_new ≡ false) × (work.id ≡ saved.id)
plan_save_target_example = plan_save_target-IsUnique save saved 1 work is_saved refl refl

abbrev renaming : RenameConfigRequest
renaming = record {
  requested_name = 110 ∷ 32 ∷ [];
  source_id = none;
  selected_id = some 7;
  existing = home ∷ work ∷ [];
}

is_renamed : plan_rename renaming ≡ ok (RenameConfigDecision.rename 7 (104 ∷ []) (110 ∷ []))
unfolding plan_rename trim trim_start is_whitespace
is_renamed = refl

plan_rename_example : IsApart renaming.existing 7 (104 ∷ []) (110 ∷ [])
plan_rename_example = plan_rename-IsApart renaming 7 (104 ∷ []) (110 ∷ []) is_renamed

abbrev deletion : DeleteConfigsRequest
deletion = record {
  requested_ids = 8 ∷ 7 ∷ [];
  existing = home ∷ work ∷ [];
  running_id = some 7;
  running_name = none;
  policy = DeletePolicy.skip_running;
}

abbrev deleted : DeleteConfigsPlan
deleted = record { deleted = work ∷ []; skipped_running = (104 ∷ []) ∷ [] }

is_deleted : plan_delete deletion ≡ DeleteConfigsDecision.delete deleted
unfolding plan_delete delete_loop
is_deleted = refl

plan_delete_example :
    (deleted.deleted ≡ deletable deletion deletion.existing)
    × (deleted.skipped_running ≡ running_names deletion deletion.existing)
    × (deletion.policy ≡ DeletePolicy.block_running → running_names deletion deletion.existing ≡ [])
plan_delete_example = plan_delete-eq-delete deletion deleted is_deleted

plan_post_delete_selection_example :
    (d : PostDeleteSelection) × (plan_post_delete_selection (7 ∷ []) (some 8) (some 1) ≡ some d)
    × IsAmong d (7 ∷ [])
plan_post_delete_selection_example = plan_post_delete_selection-IsSafe (7 ∷ []) (some 8) (some 1)

abbrev steps : List ImportStep
steps =
    ImportStep.failure []
    ∷ ImportStep.success (record {
      id = 3;
      name = 104 ∷ [];
      origin_path = [];
      storage_path = [];
      source = ConfigSourceKind.file;
    })
    ∷ []

import_all_example :
    ((import_all (begin_import_batch [] 2) steps).processed ≡ length steps)
    × ((finish_import_batch (import_all (begin_import_batch [] 2) steps)).imported
          + (finish_import_batch (import_all (begin_import_batch [] 2) steps)).failed
        ≡ length steps)
    × ((finish_import_batch (import_all (begin_import_batch [] 2) steps)).selected_import_id
        ≡ last_id none steps)
import_all_example = import_all-begin_import_batch [] 2 steps

abbrev idle_input : ToggleTunnelInput
idle_input = record {
  busy = false;
  running = false;
  selected_config_id = some 7;
  running_config_id = none;
  draft_has_saved_source = true;
  draft_is_dirty = false;
  restart_delay = none;
}

-- An idle input starts what is selected; a running one that is busy queues it, before what runs.
idle_starts : decide_toggle idle_input ≡ ToggleTunnelDecision.start_selected 7 none
unfolding decide_toggle
idle_starts = refl

busy_queues :
    decide_toggle (record idle_input {
      busy = true;
      running = true;
      selected_config_id = some 22;
      running_config_id = some 11;
    })
    ≡ ToggleTunnelDecision.queue_pending_start 22
unfolding decide_toggle pending_start_target
busy_queues = refl
