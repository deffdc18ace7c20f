-- ===== src/Report/Kinds.antt =====
-- The kind that a report infers from the item id of a plan's operation.
use r_wg.Base.{◌≡◌, refl, Option, none, some}
use r_wg.Config.{Text}
use r_wg.Net.{IpAddr, AllowedIp}
use r_wg.Report.{
  infer_apply_kind, infer_apply_phase, infer_failure_kind, RouteApplyKind, RouteApplyPhase,
  RouteApplyFailureKind,
}
use r_wg.Report.Ids.{
  item_id, policy_item_id, metric_item_id, route_item_id, bypass_item_id, bypass_prefix,
}
use r_wg.RoutePlan.{
  RoutePlanRouteOp, RoutePlanRouteKind, RoutePlanFamily, RoutePlanPolicyRuleOp, RoutePlanMetricOp,
  RoutePlanBypassOp,
}

-- What is inferred from an item id.
abbrev pub Infers : Text → RouteApplyKind → Type 0
Infers id kind =
    (infer_apply_kind id ≡ some kind)
    × (infer_apply_phase id ≡ RouteApplyPhase.apply)
    × (infer_failure_kind id ≡ some RouteApplyFailureKind.system)

policy_lem :
    (t m : _) (f : RoutePlanFamily)
    → Infers
        (policy_item_id (record { family = f; table_id = t; fwmark = m }))
        RouteApplyKind.policy_rule
unfolding infer_apply_kind infer_apply_phase infer_failure_kind policy_item_id
policy_lem t m RoutePlanFamily.ipv4 = (refl, refl, refl)
policy_lem t m RoutePlanFamily.ipv6 = (refl, refl, refl)

metric_lem :
    (m : _) (f : RoutePlanFamily)
    → Infers (metric_item_id (record { family = f; metric = m })) RouteApplyKind.metric
unfolding infer_apply_kind infer_apply_phase infer_failure_kind metric_item_id
metric_lem m RoutePlanFamily.ipv4 = (refl, refl, refl)
metric_lem m RoutePlanFamily.ipv6 = (refl, refl, refl)

route_lem :
    (show_ip : IpAddr → Text) (r : AllowedIp) (t : _) (k : RoutePlanRouteKind)
    → Infers
        (route_item_id show_ip (record { route = r; table_id = t; kind = k }))
        RouteApplyKind.route
unfolding infer_apply_kind infer_apply_phase infer_failure_kind route_item_id item_id
route_lem show_ip r t RoutePlanRouteKind.allowed = (refl, refl, refl)
route_lem show_ip r t RoutePlanRouteKind.dns_host = (refl, refl, refl)

bypass_lem :
    (parse_ip : Text → Option IpAddr) (o : Option IpAddr) (s : Text)
    → Infers (item_id (bypass_prefix parse_ip o) s) RouteApplyKind.bypass_route
unfolding infer_apply_kind infer_apply_phase infer_failure_kind item_id
bypass_lem parse_ip none s = (refl, refl, refl)
bypass_lem parse_ip (some a) s = (refl, refl, refl)

module _ (show_ip : IpAddr → Text) (parse_ip : Text → Option IpAddr) where
  -- From the item id of every operation of a plan, whatever its addresses and hosts are, the report
  -- infers the kind of the operation, the phase of the apply, and, for a failure without a given
  -- kind, a failure of the system.
  pub infer_apply_kind-item_id :
      (r : RoutePlanRouteOp) (p : RoutePlanPolicyRuleOp) (m : RoutePlanMetricOp)
      (b : RoutePlanBypassOp)
      → Infers (route_item_id show_ip r) RouteApplyKind.route
        × Infers (policy_item_id p) RouteApplyKind.policy_rule
        × Infers (metric_item_id m) RouteApplyKind.metric
        × Infers (bypass_item_id parse_ip b) RouteApplyKind.bypass_route
  unfolding bypass_item_id
  infer_apply_kind-item_id r p m b = (
    route_lem show_ip r.route r.table_id r.kind,
    policy_lem p.table_id p.fwmark p.family,
    metric_lem m.metric m.family,
    bypass_lem parse_ip (parse_ip b.host) _,
  )
