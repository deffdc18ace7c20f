-- ===== src/RoutePlan/Planner.antt =====
-- src/core/route_plan/planner.rs. The parser of the standard library's IpAddr is a parameter.
use mathlib.Core.List.{List, [], ◌∷◌, ◌++◌, map}
use r_wg.Base.{ℕ, suc, not, ◌&&◌, ◌||◌, Option, none, some, if◌then◌else◌, length}
use r_wg.Net.{IpAddr, v4, v6, AllowedIp, is_ipv4, is_ipv6}
use r_wg.Config.{RouteTable, Text, PeerConfig, WireGuardConfig, Endpoint}
use r_wg.RoutePlan.{
  RoutePlanPlatform, FullTunnelStatus, any_family, is_linux, is_windows, table_is_off,
  RoutePlanRouteOp, RoutePlanRouteKind, RoutePlanFamily, RoutePlanPolicyRuleOp, RoutePlanMetricOp,
  RoutePlanBypassOp, Plan,
}
use r_wg.RoutePlan.Util.{route_table_id}
use r_wg.RoutePlan.Normalize.{
  collect_allowed_routes, detect_full_tunnel, linux_policy_table_id, linux_route_table_for,
}

unfoldable pub route_op :
    RoutePlanPlatform
    → Option RouteTable
    → Option ℕ
    → FullTunnelStatus
    → AllowedIp
    → RoutePlanRouteOp
unfolding linux_route_table_for route_table_id
route_op platform table policy full route = record {
  route = route;
  table_id = elim platform [
    | RoutePlanPlatform.linux ↦
        linux_route_table_for RoutePlanPlatform.linux table policy full route
    | RoutePlanPlatform.windows ↦ none
    | RoutePlanPlatform.other ↦ route_table_id table
  ];
  kind = RoutePlanRouteKind.allowed;
}

abbrev pub host_route : IpAddr → RoutePlanRouteOp
host_route server = record {
  route = record { addr = server; cidr = if is_ipv4 server then 32 else 128 };
  table_id = none;
  kind = RoutePlanRouteKind.dns_host;
}

unfoldable pub dns_ops : FullTunnelStatus → List IpAddr → List RoutePlanRouteOp
dns_ops full [] = []
dns_ops full (d ∷ ds) =
    let rest = dns_ops full ds in
    if (is_ipv4 d && full.ipv4) || (is_ipv6 d && full.ipv6) then host_route d ∷ rest else rest

unfoldable pub build_route_ops :
    RoutePlanPlatform
    → WireGuardConfig
    → List AllowedIp
    → FullTunnelStatus
    → Option ℕ
    → List RoutePlanRouteOp
unfolding route_op dns_ops
build_route_ops platform parsed routes full policy =
    if table_is_off parsed.interface.table
    then []
    else map (route_op platform parsed.interface.table policy full) routes
      ++ (if is_windows platform then dns_ops full parsed.interface.dns_servers else [])

abbrev pub rules : FullTunnelStatus → ℕ → ℕ → List RoutePlanPolicyRuleOp
rules full table mark =
    (if full.ipv4
      then record { family = RoutePlanFamily.ipv4; table_id = table; fwmark = mark } ∷ []
      else [])
    ++ (if full.ipv6
        then record { family = RoutePlanFamily.ipv6; table_id = table; fwmark = mark } ∷ []
        else [])

abbrev pub rules_for : FullTunnelStatus → Option ℕ → Option ℕ → List RoutePlanPolicyRuleOp
rules_for full none mark = []
rules_for full (some table) none = []
rules_for full (some table) (some mark) = rules full table mark

unfoldable pub build_policy_rule_ops :
    RoutePlanPlatform → WireGuardConfig → FullTunnelStatus → Option ℕ → List RoutePlanPolicyRuleOp
build_policy_rule_ops platform parsed full policy =
    if not (is_linux platform) || table_is_off parsed.interface.table
    then []
    else rules_for full policy parsed.interface.fwmark

unfoldable pub build_metric_ops :
    RoutePlanPlatform → WireGuardConfig → FullTunnelStatus → List RoutePlanMetricOp
build_metric_ops platform parsed full =
    if not (is_windows platform) || table_is_off parsed.interface.table
    then []
    else (if full.ipv4 then record { family = RoutePlanFamily.ipv4; metric = 0 } ∷ [] else [])
      ++ (if full.ipv6 then record { family = RoutePlanFamily.ipv6; metric = 0 } ∷ [] else [])

module _ (parse_ip : Text → Option IpAddr) where
  -- The `match` on the endpoint's host, which pushes a route or nothing.
  abbrev pub bypass_match : FullTunnelStatus → Endpoint → Option IpAddr → List RoutePlanBypassOp
  bypass_match full e (some (v4 _)) =
      if full.ipv4 then record { host = e.host; port = e.port } ∷ [] else []
  bypass_match full e (some (v6 _)) =
      if full.ipv6 then record { host = e.host; port = e.port } ∷ [] else []
  bypass_match full e none =
      if any_family full then record { host = e.host; port = e.port } ∷ [] else []

  abbrev pub bypass_of : FullTunnelStatus → Option Endpoint → List RoutePlanBypassOp
  bypass_of full none = []
  bypass_of full (some e) = bypass_match full e (parse_ip e.host)

  unfoldable pub bypass_loop : FullTunnelStatus → List PeerConfig → List RoutePlanBypassOp
  bypass_loop full [] = []
  bypass_loop full (p ∷ ps) = bypass_of full p.endpoint ++ bypass_loop full ps

  unfoldable pub build_bypass_ops :
      RoutePlanPlatform → WireGuardConfig → FullTunnelStatus → List RoutePlanBypassOp
  unfolding bypass_loop
  build_bypass_ops platform parsed full =
      if not (is_windows platform) || table_is_off parsed.interface.table || not (any_family full)
      then []
      else bypass_loop full parsed.peers

  -- The `match` of the count, which adds one or nothing.
  abbrev pub count_match : FullTunnelStatus → ℕ → Option IpAddr → ℕ
  count_match full n (some (v4 _)) = if full.ipv4 then suc n else n
  count_match full n (some (v6 _)) = if full.ipv6 then suc n else n
  count_match full n none = if any_family full then suc n else n

  abbrev pub count_of : FullTunnelStatus → Option Endpoint → ℕ → ℕ
  count_of full none n = n
  count_of full (some e) n = count_match full n (parse_ip e.host)

  unfoldable pub count_loop : FullTunnelStatus → ℕ → List PeerConfig → ℕ
  count_loop full n [] = n
  count_loop full n (p ∷ ps) = count_loop full (count_of full p.endpoint n) ps

  unfoldable pub windows_planned_bypass_count :
      RoutePlanPlatform → List PeerConfig → FullTunnelStatus → ℕ
  unfolding count_loop
  windows_planned_bypass_count platform peers full =
      if not (is_windows platform) || not (any_family full) then 0 else count_loop full 0 peers

  unfoldable pub build : RoutePlanPlatform → WireGuardConfig → Plan
  unfolding collect_allowed_routes detect_full_tunnel linux_policy_table_id build_route_ops
      build_policy_rule_ops build_metric_ops build_bypass_ops
  build platform parsed =
      let routes = collect_allowed_routes parsed.peers in
      let full = detect_full_tunnel routes in
      let policy = linux_policy_table_id platform parsed.interface.table full in
      let bypass = build_bypass_ops platform parsed full in
      record {
        platform = platform;
        requested_table = parsed.interface.table;
        allowed_routes = routes;
        full_tunnel = full;
        policy_table = policy;
        route_ops = build_route_ops platform parsed routes full policy;
        policy_rule_ops = build_policy_rule_ops platform parsed full policy;
        metric_ops = build_metric_ops platform parsed full;
        bypass_ops = bypass;
        bypass_count = length bypass;
      }
