-- ===== src/Linux/Apply.antt =====
-- apply_pipeline.rs
use r_wg.Base.{ℕ, Bool, false, Option, none, some}
use r_wg.Base.Result.{Result, ok, err}
use r_wg.Base.Texts.{codes}
use r_wg.Config.{Text, InterfaceConfig, WireGuardConfig}
use r_wg.Linux.{NetworkError, AppliedNetworkState, KillSwitchState}
use r_wg.Linux.Cleanup.{cleanup_network_config_impl}
use r_wg.Linux.Machine.{
  Call, Oracle, Outcome, Action, ◌>>=◌, ◌>>◌, pure, fail, attempt, on_error, get_sys, edit_report,
  same, call,
}
use r_wg.Linux.Plan.{LinuxApplyPlan, NetworkApplyError, build_apply_plan}
use r_wg.Linux.Stages.{
  journal_failed, persist_applying_recovery_state, persist_running_recovery_state, configure_link,
  apply_policy_stage, apply_route_stage, apply_kill_switch_stage, apply_dns_stage,
}
use r_wg.Linux.Undo.{cleanup_stale_default_routes_once}
use r_wg.Net.{IpAddr}
use r_wg.Report.{
  RouteApplyReport, RouteApplyKind, RouteApplyFailureKind, new_report, push_failed_kind,
  mark_failed, mark_running,
}
use r_wg.RoutePlan.{RoutePlanPlatform, Plan}

unfoldable pub netlink_failed : RouteApplyReport → RouteApplyReport
unfolding push_failed_kind
netlink_failed r = mark_failed (
    push_failed_kind (codes "apply:linux:netlink") RouteApplyKind.adapter
      (some RouteApplyFailureKind.system) r)

abbrev pub plan_result : Result NetworkApplyError LinuxApplyPlan → Action LinuxApplyPlan
plan_result (ok p) s = (Outcome.done p, s)
plan_result (err e) s = (Outcome.failed e.error, record s { report = e.report })

-- `build_apply_plan`, which writes its error to the report.
unfoldable pub plan_step : WireGuardConfig → Plan → Action LinuxApplyPlan
unfolding build_apply_plan
plan_step c plan = do s ← get_sys; plan_result (build_apply_plan c plan s.report)

unfoldable pub initial_state : InterfaceConfig → LinuxApplyPlan → AppliedNetworkState
initial_state interface p = record {
  addresses = interface.addresses;
  routes = p.route_ops;
  table = interface.table;
  dns = none;
  policy = p.policy;
  kill_switch = none;
}

abbrev pub with_kill_switch : AppliedNetworkState → Option KillSwitchState → AppliedNetworkState
with_kill_switch state none = state
with_kill_switch state (some k) = record state { kill_switch = some k }

abbrev pub with_dns : AppliedNetworkState → Option ℕ → AppliedNetworkState
with_dns state none = state
with_dns state (some d) = record state { dns = some d }

module _ (o : Oracle) (plan : Plan) where
  unfoldable pub abort_apply : {A : Type 0} → AppliedNetworkState → NetworkError → Action A
  unfolding persist_applying_recovery_state cleanup_network_config_impl
  abort_apply {A} state error = do
    _ ← attempt (persist_applying_recovery_state o plan state.policy state.kill_switch)
    _ ← attempt (cleanup_network_config_impl o state false)
    fail error

  abbrev pub kept_or_abort : {A : Type 0} → AppliedNetworkState → Result NetworkError A → Action A
  unfolding abort_apply
  kept_or_abort state (ok a) = pure a
  kept_or_abort state (err e) = abort_apply state e

  -- `if let Err(err) = step { return abort_apply(...) }`
  unfoldable pub or_abort : {A : Type 0} → AppliedNetworkState → Action A → Action A
  unfolding abort_apply
  or_abort state step = do result ← attempt step; kept_or_abort state result

  -- The journal is written again when there is a kill switch.
  unfoldable pub record_kill_switch : AppliedNetworkState → Option KillSwitchState → Action Unit
  unfolding or_abort persist_applying_recovery_state journal_failed
  record_kill_switch state none = pure tt
  record_kill_switch state (some k) =
      or_abort (record state { kill_switch = some k })
        (on_error journal_failed (persist_applying_recovery_state o plan state.policy (some k)))

  unfoldable pub finish : LinuxApplyPlan → AppliedNetworkState → Action AppliedNetworkState
  unfolding or_abort persist_running_recovery_state journal_failed
  finish p state = do
    edit_report mark_running
    or_abort state (
        on_error journal_failed
          (persist_running_recovery_state o p.route_ops state.policy state.kill_switch state.dns))
    pure state

module _ (o : Oracle) (show_ip : IpAddr → Text) where
  -- The stages from the kill switch on.
  unfoldable pub guard_and_dns :
      InterfaceConfig
      → Plan
      → LinuxApplyPlan
      → Bool
      → AppliedNetworkState
      → Action AppliedNetworkState
  unfolding or_abort apply_kill_switch_stage record_kill_switch apply_dns_stage finish
  guard_and_dns interface plan p kill_switch_enabled state = do
    guard ← or_abort o plan state (apply_kill_switch_stage o state.policy kill_switch_enabled)
    record_kill_switch o plan state guard
    dns ← or_abort o plan (with_kill_switch state guard) (apply_dns_stage o interface)
    finish o plan p (with_dns (with_kill_switch state guard) dns)

  -- The asynchronous block.
  unfoldable pub apply_body :
      InterfaceConfig
      → Plan
      → LinuxApplyPlan
      → Bool
      → AppliedNetworkState
      → Action AppliedNetworkState
  unfolding cleanup_stale_default_routes_once configure_link or_abort apply_policy_stage
      apply_route_stage guard_and_dns
  apply_body interface plan p kill_switch_enabled state = do
    call o Call.find_link same
    _ ← attempt (cleanup_stale_default_routes_once o)
    configure_link o interface
    or_abort o plan state (
        apply_policy_stage o show_ip plan state.policy state.kill_switch p.policy_rule_ops
          p.route_ops)
    or_abort o plan state (
        apply_route_stage o show_ip plan interface.table state.policy state.kill_switch p.route_ops)
    guard_and_dns interface plan p kill_switch_enabled state

  -- With a plan and the handle of netlink.
  unfoldable pub apply_planned :
      InterfaceConfig → Plan → Bool → LinuxApplyPlan → Action AppliedNetworkState
  unfolding initial_state netlink_failed journal_failed persist_applying_recovery_state apply_body
  apply_planned interface plan kill_switch_enabled p = do
    on_error netlink_failed (call o Call.open_netlink same)
    on_error journal_failed (persist_applying_recovery_state o plan p.policy none)
    apply_body interface plan p kill_switch_enabled (initial_state interface p)

  unfoldable pub apply_network_config : WireGuardConfig → Plan → Bool → Action AppliedNetworkState
  unfolding plan_step apply_planned
  apply_network_config c plan kill_switch_enabled = do
    edit_report (λ _. new_report RoutePlanPlatform.linux)
    p ← plan_step c plan
    apply_planned c.interface plan kill_switch_enabled p
