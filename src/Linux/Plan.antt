-- ===== src/Linux/Plan.antt =====
-- apply_plan.rs: the plan of the Linux apply, and the report of a plan that cannot be made
use mathlib.Core.List.{List, [], ◌∷◌}
use r_wg.Base.{ℕ, not, ◌||◌, Option, none, some, if◌then◌else◌}
use r_wg.Base.Result.{Result, ok, err}
use r_wg.Base.Texts.{codes}
use r_wg.Config.{RouteTable, WireGuardConfig}
use r_wg.Linux.{NetworkError, missing_fwmark, PolicyRoutingState}
use r_wg.Linux.Snapshots.{is_allowed}
use r_wg.Report.{
  RouteApplyReport, RouteApplyKind, RouteApplyFailureKind, push_failed_kind, mark_failed, unwrap_or,
}
use r_wg.RoutePlan.{
  RoutePlanRouteOp, RoutePlanPolicyRuleOp, FullTunnelStatus, Plan, any_family, table_is_off,
}

-- `DEFAULT_POLICY_TABLE`
abbrev pub default_policy_table : ℕ
default_policy_table = 200

pub record LinuxApplyPlan : Type 0 where
  pub route_ops : List RoutePlanRouteOp
  pub policy_rule_ops : List RoutePlanPolicyRuleOp
  pub policy : Option PolicyRoutingState

pub record NetworkApplyError : Type 0 where
  pub error : NetworkError
  pub report : RouteApplyReport

unfoldable pub allowed_ops : List RoutePlanRouteOp → List RoutePlanRouteOp
allowed_ops [] = []
allowed_ops (op ∷ ops) =
    let rest = allowed_ops ops in if is_allowed op.kind then op ∷ rest else rest

abbrev pub configured_table : Option RouteTable → ℕ
configured_table none = default_policy_table
configured_table (some RouteTable.auto) = default_policy_table
configured_table (some RouteTable.off) = default_policy_table
configured_table (some (RouteTable.id n)) = n

unfoldable pub no_fwmark : RouteApplyReport → RouteApplyReport
unfolding push_failed_kind
no_fwmark r = mark_failed (
    push_failed_kind (codes "apply:linux:fwmark") RouteApplyKind.policy_rule
      (some RouteApplyFailureKind.precondition) r)

abbrev pub with_fwmark :
    FullTunnelStatus
    → ℕ
    → RouteApplyReport
    → Option ℕ
    → Result NetworkApplyError (Option PolicyRoutingState)
unfolding no_fwmark
with_fwmark full table_id r none = err (record { error = missing_fwmark; report = no_fwmark r })
with_fwmark full table_id r (some mark) =
    ok (some (record { table_id = table_id; fwmark = mark; v4 = full.ipv4; v6 = full.ipv6 }))

unfoldable pub resolve_policy_state :
    WireGuardConfig → Plan → RouteApplyReport → Result NetworkApplyError (Option PolicyRoutingState)
unfolding no_fwmark
resolve_policy_state c plan r =
    if table_is_off c.interface.table || not (any_family plan.full_tunnel)
    then ok none
    else with_fwmark plan.full_tunnel
        (unwrap_or plan.policy_table (configured_table c.interface.table)) r c.interface.fwmark

abbrev pub plan_with :
    Plan
    → Result NetworkApplyError (Option PolicyRoutingState)
    → Result NetworkApplyError LinuxApplyPlan
unfolding allowed_ops
plan_with plan (err e) = err e
plan_with plan (ok policy) = ok (record {
  route_ops = allowed_ops plan.route_ops;
  policy_rule_ops = plan.policy_rule_ops;
  policy = policy;
})

unfoldable pub build_apply_plan :
    WireGuardConfig → Plan → RouteApplyReport → Result NetworkApplyError LinuxApplyPlan
unfolding allowed_ops resolve_policy_state
build_apply_plan c plan r = plan_with plan (resolve_policy_state c plan r)
