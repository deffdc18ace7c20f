-- ===== src/Linux/Stages.antt =====
-- stages/: the steps of an apply. Each persists the report and the journal after what it installs.
use mathlib.Core.List.{List, [], ◌∷◌, ◌++◌}
use r_wg.Base.{ℕ, Bool, true, false, ◌&&◌, Option, none, some, if◌then◌else◌, is_empty}
use r_wg.Base.Result.{Result, ok, err}
use r_wg.Base.Texts.{codes}
use r_wg.Config.{Text, InterfaceAddress, InterfaceConfig, RouteTable}
use r_wg.Linux.{
  NetworkError, io, netlink, command_failed, dns_verify_failed, dns_not_supported, link_not_found,
  missing_fwmark, kill_switch_unavailable, RecoveryPhase, PolicyRoutingState, KillSwitchState,
  RecoveryPolicySnapshot,
}
use r_wg.Linux.Machine.{
  Machine, Call, Oracle, Action, ◌>>=◌, ◌>>◌, pure, fail, attempt, on_error, get_sys, edit_report,
  same, call,
}
use r_wg.Linux.Rules.{RuleMessage, policy_rules_family}
use r_wg.Linux.Snapshots.{
  route_snapshot, route_snapshots, route_snapshots_from_ops, policy_snapshot,
}
use r_wg.Linux.Undo.{cleanup_policy_rules_once}
use r_wg.Net.{IpAddr}
use r_wg.Report.{
  RouteApplyReport, RouteApplyKind, RouteApplyFailureKind, push_applied_kind, push_skipped_kind,
  push_failed_kind, mark_failed,
}
use r_wg.Report.Ids.{route_item_id, policy_item_id}
use r_wg.RoutePlan.{RoutePlanRouteOp, RoutePlanPolicyRuleOp, Plan, table_is_off}

abbrev pub snapshot_of : Option PolicyRoutingState → Option RecoveryPolicySnapshot
snapshot_of none = none
snapshot_of (some p) = some (policy_snapshot p)

unfoldable pub journal_failed : RouteApplyReport → RouteApplyReport
unfolding push_failed_kind
journal_failed r = mark_failed (
    push_failed_kind (codes "apply:linux:journal") RouteApplyKind.recovery_journal
      (some RouteApplyFailureKind.persistence) r)

-- stages/dns.rs
unfoldable pub classify_linux_failure : NetworkError → RouteApplyFailureKind
classify_linux_failure missing_fwmark = RouteApplyFailureKind.precondition
classify_linux_failure dns_verify_failed = RouteApplyFailureKind.verification
classify_linux_failure command_failed = RouteApplyFailureKind.system
classify_linux_failure dns_not_supported = RouteApplyFailureKind.system
classify_linux_failure kill_switch_unavailable = RouteApplyFailureKind.system
classify_linux_failure io = RouteApplyFailureKind.persistence
classify_linux_failure netlink = RouteApplyFailureKind.lookup
classify_linux_failure link_not_found = RouteApplyFailureKind.lookup

abbrev pub add_rule_to : RuleMessage → Machine → Machine
add_rule_to r m = record m { rules = m.rules ++ (r ∷ []) }

abbrev pub add_route_to : RoutePlanRouteOp → Machine → Machine
add_route_to op m = record m { routes = m.routes ++ (route_snapshot op ∷ []) }

abbrev pub add_address_to : InterfaceAddress → Machine → Machine
add_address_to a m = record m { addresses = m.addresses ++ (a ∷ []) }

module _ (o : Oracle) where
  unfoldable pub write_persisted_apply_report : Action Unit
  write_persisted_apply_report = do
    s ← get_sys
    call o Call.write_report (λ m. record m { report_file = some s.report })

  unfoldable pub write_applying_journal :
      Plan → Option PolicyRoutingState → Option KillSwitchState → Action Unit
  unfolding route_snapshots
  write_applying_journal plan policy kill_switch = call o Call.write_journal (λ m. record m {
    journal = some (record {
      phase = RecoveryPhase.applying;
      routes = route_snapshots plan;
      policy = snapshot_of policy;
      kill_switch = kill_switch;
      dns = none;
    });
  })

  unfoldable pub write_running_journal :
      List RoutePlanRouteOp
      → Option PolicyRoutingState
      → Option KillSwitchState
      → Option ℕ
      → Action Unit
  unfolding route_snapshots_from_ops
  write_running_journal ops policy kill_switch dns = call o Call.write_journal (λ m. record m {
    journal = some (record {
      phase = RecoveryPhase.running;
      routes = route_snapshots_from_ops ops;
      policy = snapshot_of policy;
      kill_switch = kill_switch;
      dns = dns;
    });
  })

  unfoldable pub persist_applying_recovery_state :
      Plan → Option PolicyRoutingState → Option KillSwitchState → Action Unit
  unfolding write_persisted_apply_report write_applying_journal
  persist_applying_recovery_state plan policy kill_switch = do
    write_persisted_apply_report
    write_applying_journal plan policy kill_switch

  unfoldable pub persist_running_recovery_state :
      List RoutePlanRouteOp
      → Option PolicyRoutingState
      → Option KillSwitchState
      → Option ℕ
      → Action Unit
  unfolding write_persisted_apply_report write_running_journal
  persist_running_recovery_state ops policy kill_switch dns = do
    write_persisted_apply_report
    write_running_journal ops policy kill_switch dns

  -- stages/link.rs
  unfoldable pub add_addresses : List InterfaceAddress → Action Unit
  add_addresses [] = pure tt
  add_addresses (a ∷ rest) = call o Call.add_address (add_address_to a) >> add_addresses rest

  abbrev pub set_mtu : Option ℕ → Action Unit
  set_mtu none = pure tt
  set_mtu (some _) = call o Call.set_link same

  unfoldable pub configure_link : InterfaceConfig → Action Unit
  unfolding add_addresses
  configure_link interface = do
    set_mtu interface.mtu
    call o Call.set_link same
    add_addresses interface.addresses

  -- policy.rs: `apply_policy_rules` for one family
  unfoldable pub add_rules : List RuleMessage → Action Unit
  add_rules [] = pure tt
  add_rules (r ∷ rs) = call o Call.add_rule (add_rule_to r) >> add_rules rs

module _ (o : Oracle) (show_ip : IpAddr → Text) where
  unfoldable pub skip_rules : List RoutePlanPolicyRuleOp → RouteApplyReport → RouteApplyReport
  unfolding push_skipped_kind policy_item_id
  skip_rules [] r = r
  skip_rules (op ∷ ops) r =
      skip_rules ops (push_skipped_kind (policy_item_id op) RouteApplyKind.policy_rule r)

  unfoldable pub skip_routes : List RoutePlanRouteOp → RouteApplyReport → RouteApplyReport
  unfolding push_skipped_kind route_item_id
  skip_routes [] r = r
  skip_routes (op ∷ ops) r =
      skip_routes ops (push_skipped_kind (route_item_id show_ip op) RouteApplyKind.route r)

  -- stages/policy.rs
  unfoldable pub rule_failed :
      RoutePlanPolicyRuleOp
      → List RoutePlanPolicyRuleOp
      → List RoutePlanRouteOp
      → RouteApplyReport
      → RouteApplyReport
  unfolding push_failed_kind policy_item_id skip_rules skip_routes
  rule_failed op rest routes r = mark_failed (
      skip_routes routes (
        skip_rules rest (
          push_failed_kind (policy_item_id op) RouteApplyKind.policy_rule
            (some RouteApplyFailureKind.system) r)))

  unfoldable pub apply_policy_ops :
      Plan
      → PolicyRoutingState
      → Option KillSwitchState
      → List RoutePlanRouteOp
      → List RoutePlanPolicyRuleOp
      → Action Unit
  unfolding add_rules policy_rules_family rule_failed push_applied_kind policy_item_id
      persist_applying_recovery_state journal_failed
  apply_policy_ops plan policy kill_switch routes [] = pure tt
  apply_policy_ops plan policy kill_switch routes (op ∷ ops) = do
    on_error (rule_failed op ops routes)
        (add_rules o (policy_rules_family op.family policy.fwmark policy.table_id))
    edit_report (push_applied_kind (policy_item_id op) RouteApplyKind.policy_rule)
    on_error journal_failed (persist_applying_recovery_state o plan (some policy) kill_switch)
    apply_policy_ops plan policy kill_switch routes ops

  unfoldable pub apply_policy_stage :
      Plan
      → Option PolicyRoutingState
      → Option KillSwitchState
      → List RoutePlanPolicyRuleOp
      → List RoutePlanRouteOp
      → Action Unit
  unfolding cleanup_policy_rules_once apply_policy_ops
  apply_policy_stage plan none kill_switch rules routes = pure tt
  apply_policy_stage plan (some policy) kill_switch rules routes = do
    _ ← attempt (cleanup_policy_rules_once o (some policy))
    apply_policy_ops plan policy kill_switch routes rules

  -- stages/route.rs
  unfoldable pub route_failed :
      RoutePlanRouteOp → List RoutePlanRouteOp → RouteApplyReport → RouteApplyReport
  unfolding push_failed_kind route_item_id skip_routes
  route_failed op rest r = mark_failed (
      skip_routes rest (
        push_failed_kind (route_item_id show_ip op) RouteApplyKind.route
          (some RouteApplyFailureKind.system) r))

  unfoldable pub apply_route_ops :
      Plan
      → Option PolicyRoutingState
      → Option KillSwitchState
      → List RoutePlanRouteOp
      → Action Unit
  unfolding route_failed push_applied_kind route_item_id persist_applying_recovery_state
      journal_failed
  apply_route_ops plan policy kill_switch [] = pure tt
  apply_route_ops plan policy kill_switch (op ∷ ops) = do
    on_error (route_failed op ops) (call o Call.add_route (add_route_to op))
    edit_report (push_applied_kind (route_item_id show_ip op) RouteApplyKind.route)
    on_error journal_failed (persist_applying_recovery_state o plan policy kill_switch)
    apply_route_ops plan policy kill_switch ops

  unfoldable pub apply_route_stage :
      Plan
      → Option RouteTable
      → Option PolicyRoutingState
      → Option KillSwitchState
      → List RoutePlanRouteOp
      → Action Unit
  unfolding apply_route_ops
  apply_route_stage plan requested policy kill_switch ops =
      if table_is_off requested then pure tt else apply_route_ops plan policy kill_switch ops

-- stages/kill_switch.rs: an entry for each family of the policy.
abbrev pub for_families :
    (Text → RouteApplyReport → RouteApplyReport)
    → PolicyRoutingState
    → RouteApplyReport
    → RouteApplyReport
for_families push p r =
    let after_v4 = if p.v4 then push (codes "apply:linux:kill_switch_ipv4") r else r in
    if p.v6 then push (codes "apply:linux:kill_switch_ipv6") after_v4 else after_v4

unfoldable pub kill_switch_failed : PolicyRoutingState → RouteApplyReport → RouteApplyReport
unfolding push_failed_kind
kill_switch_failed p r = mark_failed (
    for_families
      (λ id. push_failed_kind id RouteApplyKind.kill_switch (some RouteApplyFailureKind.system)) p
      r)

unfoldable pub kill_switch_applied : PolicyRoutingState → RouteApplyReport → RouteApplyReport
unfolding push_applied_kind
kill_switch_applied p r = for_families (λ id. push_applied_kind id RouteApplyKind.kill_switch) p r

unfoldable pub kill_switch_skipped : PolicyRoutingState → RouteApplyReport → RouteApplyReport
unfolding push_skipped_kind
kill_switch_skipped p r = for_families (λ id. push_skipped_kind id RouteApplyKind.kill_switch) p r

module _ (o : Oracle) where
  -- killswitch.rs: `apply_kill_switch` as one call, which chooses a backend.
  unfoldable pub apply_kill_switch : PolicyRoutingState → Action KillSwitchState
  apply_kill_switch p = do
    s ← get_sys
    let state : KillSwitchState = record {
      backend = o.backend s.calls;
      fwmark = p.fwmark;
      ipv4 = p.v4;
      ipv6 = p.v6;
    }
    call o Call.apply_kill_switch (λ m. record m { kill_switch = some state })
    pure state

  unfoldable pub apply_kill_switch_stage :
      Option PolicyRoutingState → Bool → Action (Option KillSwitchState)
  unfolding apply_kill_switch kill_switch_skipped kill_switch_failed kill_switch_applied
  apply_kill_switch_stage none enabled = pure none
  apply_kill_switch_stage (some p) false = edit_report (kill_switch_skipped p) >> pure none
  apply_kill_switch_stage (some p) true = do
    state ← on_error (kill_switch_failed p) (apply_kill_switch p)
    edit_report (kill_switch_applied p)
    pure (some state)

  -- dns/mod.rs: `apply_dns` as one call.
  unfoldable pub apply_dns : Action ℕ
  apply_dns = do
    s ← get_sys
    call o Call.apply_dns (λ m. record m { dns = some (o.resolver s.calls) })
    pure (o.resolver s.calls)

  unfoldable pub dns_failed : NetworkError → RouteApplyReport → RouteApplyReport
  unfolding push_failed_kind classify_linux_failure
  dns_failed e r =
      mark_failed (
        push_failed_kind (codes "apply:dns") RouteApplyKind.dns (some (classify_linux_failure e)) r)

  abbrev pub dns_result : Result NetworkError ℕ → Action (Option ℕ)
  unfolding dns_failed push_applied_kind
  dns_result (ok state) =
      edit_report (push_applied_kind (codes "apply:dns") RouteApplyKind.dns) >> pure (some state)
  dns_result (err e) = edit_report (dns_failed e) >> fail e

  unfoldable pub apply_dns_stage : InterfaceConfig → Action (Option ℕ)
  unfolding apply_dns dns_failed push_applied_kind
  apply_dns_stage interface =
      if is_empty interface.dns_servers && is_empty interface.dns_search
      then pure none
      else (do result ← attempt apply_dns; dns_result result)
