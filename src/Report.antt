-- ===== src/Report.antt =====
-- src/core/route_plan/apply_report.rs: the report of an apply. The evidence of an entry, which is
-- text for the user, is left out.
pub mod Ids
pub mod Kinds
use mathlib.Core.List.{List, [], ◌∷◌, ◌++◌}
use r_wg.Base.{Bool, ◌||◌, Option, none, some, if◌then◌else◌}
use r_wg.Base.Texts.{codes, is_text, starts_with}
use r_wg.Config.{Text}
use r_wg.RoutePlan.{RoutePlanPlatform}

pub data RouteApplyStatus : Type 0 where
  applied skipped failed : RouteApplyStatus

pub data RouteApplyReportSource : Type 0 where
  live persisted : RouteApplyReportSource

pub data RouteApplyAttemptState : Type 0 where
  applying running failed : RouteApplyAttemptState

pub data RouteApplyPhase : Type 0 where
  apply cleanup recovery : RouteApplyPhase

pub data RouteApplyKind : Type 0 where
  other adapter recovery_journal address policy_rule route metric bypass_route dns nrpt dns_guard
        kill_switch :
      RouteApplyKind

pub data RouteApplyFailureKind : Type 0 where
  precondition lookup persistence verification system cleanup : RouteApplyFailureKind

pub record RouteApplyEntry : Type 0 where
  pub item_id : Text
  pub status : RouteApplyStatus
  pub phase : RouteApplyPhase
  pub kind : RouteApplyKind
  pub failure_kind : Option RouteApplyFailureKind

pub record RouteApplyReport : Type 0 where
  pub platform : Option RoutePlanPlatform
  pub source : RouteApplyReportSource
  pub attempt_state : RouteApplyAttemptState
  pub entries : List RouteApplyEntry

-- `RouteApplyReport::new`
abbrev pub new_report : RoutePlanPlatform → RouteApplyReport
new_report platform = record {
  platform = some platform;
  source = RouteApplyReportSource.live;
  attempt_state = RouteApplyAttemptState.applying;
  entries = [];
}

abbrev pub is_recovery_id : Text → Bool
is_recovery_id id = is_text id (codes "apply:recovery") || is_text id (codes "apply:recovery_init")

unfoldable pub infer_apply_phase : Text → RouteApplyPhase
infer_apply_phase id =
    if is_recovery_id id
    then RouteApplyPhase.recovery
    else (if starts_with (codes "cleanup:") id
        then RouteApplyPhase.cleanup
        else RouteApplyPhase.apply)

-- The branches of `infer_apply_kind`, in its order.
abbrev pub is_policy_id : Text → Bool
is_policy_id id =
    is_text id (codes "policy-v4")
    || is_text id (codes "policy-v6")
    || starts_with (codes "policy:") id

abbrev pub is_metric_id : Text → Bool
is_metric_id id =
    is_text id (codes "metric-v4")
    || is_text id (codes "metric-v6")
    || starts_with (codes "metric:") id

abbrev pub is_bypass_id : Text → Bool
is_bypass_id id = starts_with (codes "bypass:") id || starts_with (codes "bypass-pending:") id

abbrev pub is_route_id : Text → Bool
is_route_id id =
    starts_with (codes "allowed:") id
    || starts_with (codes "dns-route:") id
    || starts_with (codes "route:") id

abbrev pub is_adapter_id : Text → Bool
is_adapter_id id =
    is_text id (codes "apply:adapter_lookup") || is_text id (codes "apply:linux:netlink")

abbrev pub is_address_id : Text → Bool
is_address_id id = starts_with (codes "apply:address:") id || is_text id (codes "apply:addresses")

abbrev pub infer_apply_kind_rest : Text → Option RouteApplyKind
infer_apply_kind_rest id =
    if is_text id (codes "apply:dns")
    then some RouteApplyKind.dns
    else (if is_text id (codes "apply:nrpt")
        then some RouteApplyKind.nrpt
        else (if is_text id (codes "apply:dns_guard")
            then some RouteApplyKind.dns_guard
            else (if starts_with (codes "apply:linux:kill_switch") id
                then some RouteApplyKind.kill_switch
                else (if is_recovery_id id then some RouteApplyKind.recovery_journal else none))))

unfoldable pub infer_apply_kind : Text → Option RouteApplyKind
infer_apply_kind id =
    if is_policy_id id
    then some RouteApplyKind.policy_rule
    else (if is_metric_id id
        then some RouteApplyKind.metric
        else (if is_bypass_id id
            then some RouteApplyKind.bypass_route
            else (if is_route_id id
                then some RouteApplyKind.route
                else (if is_adapter_id id
                    then some RouteApplyKind.adapter
                    else (if is_address_id id
                        then some RouteApplyKind.address
                        else infer_apply_kind_rest id)))))

abbrev pub is_system_id : Text → Bool
is_system_id id =
    starts_with (codes "apply:") id
    || starts_with (codes "allowed:") id
    || is_text id (codes "policy-v4")
    || is_text id (codes "policy-v6")
    || is_text id (codes "metric-v4")
    || is_text id (codes "metric-v6")
    || starts_with (codes "bypass:") id
    || starts_with (codes "bypass-pending:") id
    || starts_with (codes "dns-route:") id

unfoldable pub infer_failure_kind : Text → Option RouteApplyFailureKind
infer_failure_kind id =
    if is_text id (codes "apply:adapter_lookup")
    then some RouteApplyFailureKind.lookup
    else (if is_recovery_id id
        then some RouteApplyFailureKind.persistence
        else (if is_text id (codes "apply:stale_address_cleanup")
            then some RouteApplyFailureKind.cleanup
            else (if is_system_id id then some RouteApplyFailureKind.system else none)))

abbrev pub unwrap_or {ℓ} : {A : Type ℓ} → Option A → A → A
unwrap_or none a = a
unwrap_or (some b) a = b

-- `or_else`
abbrev pub or_else {ℓ} : {A : Type ℓ} → Option A → Option A → Option A
or_else none o = o
or_else (some a) o = some a

abbrev pub push_entry : RouteApplyEntry → RouteApplyReport → RouteApplyReport
push_entry e r = record r { entries = r.entries ++ (e ∷ []) }

unfoldable pub push_applied_kind : Text → RouteApplyKind → RouteApplyReport → RouteApplyReport
unfolding infer_apply_phase infer_apply_kind
push_applied_kind id kind r =
    push_entry
      (record {
        item_id = id;
        status = RouteApplyStatus.applied;
        phase = infer_apply_phase id;
        kind = unwrap_or (infer_apply_kind id) kind;
        failure_kind = none;
      })
      r

unfoldable pub push_skipped_kind : Text → RouteApplyKind → RouteApplyReport → RouteApplyReport
unfolding infer_apply_phase infer_apply_kind
push_skipped_kind id kind r =
    push_entry
      (record {
        item_id = id;
        status = RouteApplyStatus.skipped;
        phase = infer_apply_phase id;
        kind = unwrap_or (infer_apply_kind id) kind;
        failure_kind = none;
      })
      r

unfoldable pub push_failed_kind :
    Text → RouteApplyKind → Option RouteApplyFailureKind → RouteApplyReport → RouteApplyReport
unfolding infer_apply_phase infer_apply_kind infer_failure_kind
push_failed_kind id kind failure r =
    push_entry
      (record {
        item_id = id;
        status = RouteApplyStatus.failed;
        phase = infer_apply_phase id;
        kind = unwrap_or (infer_apply_kind id) kind;
        failure_kind = or_else failure (infer_failure_kind id);
      })
      r

abbrev pub mark_running : RouteApplyReport → RouteApplyReport
mark_running r = record r { attempt_state = RouteApplyAttemptState.running }

abbrev pub mark_failed : RouteApplyReport → RouteApplyReport
mark_failed r = record r { attempt_state = RouteApplyAttemptState.failed }

abbrev pub mark_persisted : RouteApplyReport → RouteApplyReport
mark_persisted r = record r { source = RouteApplyReportSource.persisted }
