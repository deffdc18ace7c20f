-- ===== src/Session.antt =====
-- src/application/tunnel_session.rs: what the start button does
use r_wg.Base.{ℕ, Bool, not, Option, none, some, if◌then◌else◌}

pub record ToggleTunnelInput : Type 0 where
  pub busy : Bool
  pub running : Bool
  pub selected_config_id : Option ℕ
  pub running_config_id : Option ℕ
  pub draft_has_saved_source : Bool
  pub draft_is_dirty : Bool
  pub restart_delay : Option ℕ

pub data StartBlockedReason : Type 0 where
  save_draft_first save_changes_first select_tunnel_first : StartBlockedReason

pub data ToggleTunnelDecision : Type 0 where
  noop stop_running : ToggleTunnelDecision
  queue_pending_start : ℕ → ToggleTunnelDecision
  start_selected : ℕ → Option ℕ → ToggleTunnelDecision
  blocked : StartBlockedReason → ToggleTunnelDecision

pub data StopSuccessDecision : Type 0 where
  idle : StopSuccessDecision
  restart_pending : ℕ → StopSuccessDecision

unfoldable pub pending_start_target : Option ℕ → Option ℕ → Option ℕ
pending_start_target (some id) running = some id
pending_start_target none running = running

abbrev pub queue : Bool → Option ℕ → ToggleTunnelDecision
queue running none = ToggleTunnelDecision.noop
queue running (some id) =
    if running then ToggleTunnelDecision.queue_pending_start id else ToggleTunnelDecision.noop

abbrev pub start_selection : Option ℕ → Option ℕ → ToggleTunnelDecision
start_selection (some id) delay = ToggleTunnelDecision.start_selected id delay
start_selection none delay = ToggleTunnelDecision.blocked StartBlockedReason.select_tunnel_first

unfoldable pub decide_toggle : ToggleTunnelInput → ToggleTunnelDecision
unfolding pending_start_target
decide_toggle i =
    if i.busy
    then queue i.running (pending_start_target i.selected_config_id i.running_config_id)
    else (if i.running
        then ToggleTunnelDecision.stop_running
        else (if not i.draft_has_saved_source
            then ToggleTunnelDecision.blocked StartBlockedReason.save_draft_first
            else (if i.draft_is_dirty
                then ToggleTunnelDecision.blocked StartBlockedReason.save_changes_first
                else start_selection i.selected_config_id i.restart_delay)))

unfoldable pub decide_after_stop_success : Option ℕ → StopSuccessDecision
decide_after_stop_success (some id) = StopSuccessDecision.restart_pending id
decide_after_stop_success none = StopSuccessDecision.idle
