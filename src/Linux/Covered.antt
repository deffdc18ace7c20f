-- ===== src/Linux/Covered.antt =====
-- An apply keeps the journal ahead of the routes and the rules, whatever its calls return.
use mathlib.Core.List.{List, [], ◌∷◌}
use r_wg.Base.{ℕ, ◌≡◌, refl, Bool, Option, none, some, All, All-append}
use r_wg.Config.{Text, InterfaceConfig, RouteTable}
use r_wg.Linux.{AppliedNetworkState, PolicyRoutingState, KillSwitchState}
use r_wg.Linux.Apply.{
  netlink_failed, initial_state, with_kill_switch, with_dns, guard_and_dns, apply_body,
  apply_planned,
}
use r_wg.Linux.Ends.{Ends, Ends-chain, Ends-keeps, Ends-on_error, Ends-call}
use r_wg.Linux.Journaled.{
  Repairable, Bare, Bare-Repairable, Journaled, Journaled-Repairable, Journaled-Shrinks, InPolicy,
  RuleInPolicy, InPlan, Keeps-persist_applying, Keeps-or_abort, Keeps-configure_link,
  Keeps-add_rules, Keeps-kill_switch_stage, Keeps-dns_stage, Keeps-record_kill_switch, Keeps-finish,
}
use r_wg.Linux.Keeps.{
  Keeps, Keeps-pure, Keeps-chain, Keeps-then, Keeps-attempt, Keeps-on_error, Keeps-if, Keeps-call,
  Keeps-ask, Keeps-get_sys, Keeps-edit_report,
}
use r_wg.Linux.Machine.{Oracle}
use r_wg.Linux.Plan.{LinuxApplyPlan}
use r_wg.Linux.Rules.{policy_rules_family}
use r_wg.Linux.Shrinks.{Keeps-cleanup_policy_rules_once, Keeps-cleanup_stale_default_routes_once}
use r_wg.Linux.Snapshots.{route_snapshots, route_snapshots_from_ops}
use r_wg.Linux.Stages.{
  journal_failed, rule_failed, route_failed, apply_policy_ops, apply_policy_stage, apply_route_ops,
  apply_route_stage, persist_applying_recovery_state, write_persisted_apply_report,
  write_applying_journal,
}
use r_wg.Net.{IpAddr}
use r_wg.RoutePlan.{RoutePlanRouteOp, RoutePlanPolicyRuleOp, Plan, table_is_off}

-- What a plan of the apply has to be.
pub record FitsPlan (plan : Plan) (p : LinuxApplyPlan) : Type 0 where
  pub routes : All (InPlan plan) p.route_ops
  pub rules : All (RuleInPolicy p.policy) p.policy_rule_ops
  pub snapshots : route_snapshots_from_ops p.route_ops ≡ route_snapshots plan

guarded_policy :
    {policy : Option PolicyRoutingState} (state : AppliedNetworkState) (k : Option KillSwitchState)
    → state.policy ≡ policy
    → (with_kill_switch state k).policy ≡ policy
guarded_policy state none e = e
guarded_policy state (some k) e = e

with_dns_policy :
    {policy : Option PolicyRoutingState} (state : AppliedNetworkState) (d : Option ℕ)
    → state.policy ≡ policy
    → (with_dns state d).policy ≡ policy
with_dns_policy state none e = e
with_dns_policy state (some d) e = e

module _ (o : Oracle) (show_ip : IpAddr → Text) (plan : Plan) where
  Keeps-policy_ops :
      (p : PolicyRoutingState) (k : Option KillSwitchState) (routes : List RoutePlanRouteOp)
      (ops : List RoutePlanPolicyRuleOp)
      → All (InPolicy p) ops
      → Keeps (Journaled plan (some p)) (apply_policy_ops o show_ip plan p k routes ops)
  unfolding apply_policy_ops
  Keeps-policy_ops p k routes [] h = Keeps-pure
  Keeps-policy_ops p k routes (op ∷ ops) h =
      Keeps-then
        (Keeps-on_error (rule_failed o show_ip op ops routes)
          (Keeps-add_rules o plan (some p) (policy_rules_family op.family p.fwmark p.table_id) h.0))
        (Keeps-then (Keeps-edit_report _) (
          Keeps-then (Keeps-on_error journal_failed (Keeps-persist_applying o plan (some p) k))
            (Keeps-policy_ops p k routes ops h.1)))

  Keeps-policy_stage :
      (policy : Option PolicyRoutingState) (k : Option KillSwitchState)
      (ops : List RoutePlanPolicyRuleOp) (routes : List RoutePlanRouteOp)
      → All (RuleInPolicy policy) ops
      → Keeps (Journaled plan policy) (apply_policy_stage o show_ip plan policy k ops routes)
  unfolding apply_policy_stage
  Keeps-policy_stage none k ops routes h = Keeps-pure
  Keeps-policy_stage (some p) k ops routes h =
      Keeps-chain
        (Keeps-attempt (
          Keeps-cleanup_policy_rules_once (Journaled plan (some p))
            (Journaled-Shrinks plan (some p)).routing o (some p)))
        (λ _. Keeps-policy_ops p k routes ops h)

  Keeps-route_ops :
      (policy : Option PolicyRoutingState) (k : Option KillSwitchState)
      (ops : List RoutePlanRouteOp)
      → All (InPlan plan) ops
      → Keeps (Journaled plan policy) (apply_route_ops o show_ip plan policy k ops)
  unfolding apply_route_ops
  Keeps-route_ops policy k [] h = Keeps-pure
  Keeps-route_ops policy k (op ∷ ops) h =
      Keeps-then
        (Keeps-on_error (route_failed o show_ip op ops)
          (Keeps-call _ _ _ (λ m i. (i.0, i.1, All-append _ m.routes _ i.2 (h.0, tt), i.3))))
        (Keeps-then (Keeps-edit_report _) (
          Keeps-then (Keeps-on_error journal_failed (Keeps-persist_applying o plan policy k))
            (Keeps-route_ops policy k ops h.1)))

  Keeps-route_stage :
      (table : Option RouteTable) (policy : Option PolicyRoutingState) (k : Option KillSwitchState)
      (ops : List RoutePlanRouteOp)
      → All (InPlan plan) ops
      → Keeps (Journaled plan policy) (apply_route_stage o show_ip plan table policy k ops)
  unfolding apply_route_stage
  Keeps-route_stage table policy k ops h =
      Keeps-if (table_is_off table) Keeps-pure (Keeps-route_ops policy k ops h)

  Keeps-guard_and_dns :
      (i : InterfaceConfig) (p : LinuxApplyPlan) (enabled : Bool) (state : AppliedNetworkState)
      → state.policy ≡ p.policy
      → FitsPlan plan p
      → Keeps (Journaled plan p.policy) (guard_and_dns o show_ip i plan p enabled state)
  unfolding guard_and_dns
  Keeps-guard_and_dns i p enabled state e f =
      Keeps-chain
        (Keeps-or_abort o plan p.policy state e
          (Keeps-kill_switch_stage o plan p.policy state.policy enabled))
        (λ k. Keeps-then (Keeps-record_kill_switch o plan p.policy state k e) (
          Keeps-chain
            (Keeps-or_abort o plan p.policy (with_kill_switch state k) (guarded_policy state k e)
              (Keeps-dns_stage o plan p.policy i))
            (λ d.
              Keeps-finish o plan p.policy p (with_dns (with_kill_switch state k) d)
                (with_dns_policy (with_kill_switch state k) d (guarded_policy state k e))
                f.snapshots)))

  pub Keeps-apply_body :
      (i : InterfaceConfig) (p : LinuxApplyPlan) (enabled : Bool) (state : AppliedNetworkState)
      → state.policy ≡ p.policy
      → FitsPlan plan p
      → Keeps (Journaled plan p.policy) (apply_body o show_ip i plan p enabled state)
  unfolding apply_body
  Keeps-apply_body i p enabled state e f = Keeps-then (Keeps-ask _ _) (
      Keeps-chain
        (Keeps-attempt (
          Keeps-cleanup_stale_default_routes_once (Journaled plan p.policy)
            (Journaled-Shrinks plan p.policy).routing o))
        (λ _. Keeps-then (Keeps-configure_link o plan p.policy i) (
          Keeps-then
            (Keeps-or_abort o plan p.policy state e (
              rw e (
                Keeps-policy_stage p.policy state.kill_switch p.policy_rule_ops p.route_ops
                  f.rules)))
            (Keeps-then
              (Keeps-or_abort o plan p.policy state e
                (rw e (Keeps-route_stage i.table p.policy state.kill_switch p.route_ops f.routes)))
              (Keeps-guard_and_dns i p enabled state e f)))))

  Ends-first_journal :
      (policy : Option PolicyRoutingState) (k : Option KillSwitchState)
      → Ends Bare
          (persist_applying_recovery_state o plan policy k)
          (λ _. Journaled plan policy)
          Repairable
  unfolding persist_applying_recovery_state write_persisted_apply_report write_applying_journal
  Ends-first_journal policy k =
      Ends-chain
        (Ends-keeps (Keeps-chain Keeps-get_sys (λ s. Keeps-call _ _ _ (λ m h. h))) Bare-Repairable)
        (λ _. Ends-call _ _ _ (λ m h. (refl, refl, rw h.0 tt, rw h.1 tt)) Bare-Repairable)

  pub Ends-apply_planned :
      (i : InterfaceConfig) (p : LinuxApplyPlan) (enabled : Bool)
      → FitsPlan plan p
      → Ends Bare
          (apply_planned o show_ip i plan enabled p)
          (λ _. Journaled plan p.policy)
          Repairable
  unfolding apply_planned initial_state
  Ends-apply_planned i p enabled f =
      Ends-chain (Ends-keeps (Keeps-on_error netlink_failed (Keeps-ask _ _)) Bare-Repairable) (λ _.
        Ends-chain (Ends-on_error journal_failed (Ends-first_journal p.policy none)) (λ _.
          Ends-keeps (Keeps-apply_body i p enabled (initial_state i p) refl f)
            (Journaled-Repairable plan p.policy)))
