-- ===== src/Linux/Snapshots.antt =====
-- recovery/snapshot.rs: what the journal records of the routes and of the policy
use mathlib.Core.List.{List, [], ◌∷◌}
use r_wg.Base.{Bool, true, false, if◌then◌else◌}
use r_wg.Linux.{PolicyRoutingState, RecoveryRouteSnapshot, RecoveryPolicySnapshot}
use r_wg.RoutePlan.{RoutePlanRouteOp, RoutePlanRouteKind, Plan}

-- `matches!(kind, RoutePlanRouteKind::Allowed)`
abbrev pub is_allowed : RoutePlanRouteKind → Bool
is_allowed RoutePlanRouteKind.allowed = true
is_allowed RoutePlanRouteKind.dns_host = false

abbrev pub route_snapshot : RoutePlanRouteOp → RecoveryRouteSnapshot
route_snapshot op = record { addr = op.route.addr; cidr = op.route.cidr; table_id = op.table_id }

unfoldable pub route_snapshots_from_ops : List RoutePlanRouteOp → List RecoveryRouteSnapshot
route_snapshots_from_ops [] = []
route_snapshots_from_ops (op ∷ ops) =
    let rest = route_snapshots_from_ops ops in
    if is_allowed op.kind then route_snapshot op ∷ rest else rest

unfoldable pub route_snapshots : Plan → List RecoveryRouteSnapshot
unfolding route_snapshots_from_ops
route_snapshots plan = route_snapshots_from_ops plan.route_ops

abbrev pub policy_snapshot : PolicyRoutingState → RecoveryPolicySnapshot
policy_snapshot p = record { table_id = p.table_id; fwmark = p.fwmark; v4 = p.v4; v6 = p.v6 }
