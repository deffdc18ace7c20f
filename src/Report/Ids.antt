-- ===== src/Report/Ids.antt =====
-- src/core/route_plan/ids.rs: the item ids of the operations of a plan. The printer and the parser
-- of the standard library's IpAddr are parameters.
use mathlib.Core.List.{◌∷◌, ◌++◌}
use r_wg.Base.{ℕ, Option, none, some}
use r_wg.Base.Texts.{codes, to_ascii_lowercase}
use r_wg.Config.{Text}
use r_wg.Library.Names.{decimal}
use r_wg.Net.{IpAddr}
use r_wg.RoutePlan.{
  RoutePlanRouteOp, RoutePlanRouteKind, RoutePlanFamily, RoutePlanPolicyRuleOp, RoutePlanMetricOp,
  RoutePlanBypassOp,
}

-- `util::item_id`
unfoldable pub item_id : Text → Text → Text
item_id prefix suffix = prefix ++ (58 ∷ to_ascii_lowercase suffix)

unfoldable pub policy_item_id : RoutePlanPolicyRuleOp → Text
policy_item_id op = elim op.family [
  | RoutePlanFamily.ipv4 ↦ codes "policy-v4"
  | RoutePlanFamily.ipv6 ↦ codes "policy-v6"
]

unfoldable pub metric_item_id : RoutePlanMetricOp → Text
metric_item_id op = elim op.family [
  | RoutePlanFamily.ipv4 ↦ codes "metric-v4"
  | RoutePlanFamily.ipv6 ↦ codes "metric-v6"
]

module _ (show_ip : IpAddr → Text) where
  -- `util::route_text`
  unfoldable pub route_text : IpAddr → ℕ → Text
  unfolding decimal
  route_text addr cidr = show_ip addr ++ (47 ∷ decimal cidr)

  unfoldable pub route_item_id : RoutePlanRouteOp → Text
  unfolding item_id route_text
  route_item_id op = elim op.kind [
    | RoutePlanRouteKind.allowed ↦
        item_id (codes "allowed") (route_text op.route.addr op.route.cidr)
    | RoutePlanRouteKind.dns_host ↦ item_id (codes "dns-route") (show_ip op.route.addr)
  ]

module _ (parse_ip : Text → Option IpAddr) where
  abbrev pub bypass_prefix : Option IpAddr → Text
  bypass_prefix (some _) = codes "bypass"
  bypass_prefix none = codes "bypass-pending"

  unfoldable pub bypass_item_id : RoutePlanBypassOp → Text
  unfolding item_id decimal
  bypass_item_id op = item_id (bypass_prefix (parse_ip op.host)) (op.host ++ (58 ∷ decimal op.port))
