-- ===== src/RoutePlan.antt =====
-- src/core/route_plan: what the configuration asks of the routing tables, of the policy rules, of
-- the interface's metric and of the bypass routes
pub mod Normalize
pub mod Planner
pub mod Util
pub mod Collect
pub mod Rules
pub mod Bypass
use mathlib.Core.List.{List, [], ◌∷◌}
use r_wg.Base.{ℕ, Bool, true, false, ◌||◌, Option, none, some}
use r_wg.Net.{IpAddr, v4, v6, AllowedIp}
use r_wg.Config.{RouteTable, Text}

-- `DEFAULT_FULL_TUNNEL_FWMARK`
abbrev pub default_full_tunnel_fwmark : ℕ
default_full_tunnel_fwmark = 0x5257

-- `LINUX_DEFAULT_POLICY_TABLE_ID`
abbrev pub linux_default_policy_table_id : ℕ
linux_default_policy_table_id = 200

pub data RoutePlanPlatform : Type 0 where
  linux windows other : RoutePlanPlatform

pub record FullTunnelStatus : Type 0 where
  pub ipv4 : Bool
  pub ipv6 : Bool

-- `FullTunnelStatus::any`
abbrev pub any_family : FullTunnelStatus → Bool
any_family s = s.ipv4 || s.ipv6

-- `FullTunnelStatus::matches`
abbrev pub matches : FullTunnelStatus → IpAddr → Bool
matches s (v4 _) = s.ipv4
matches s (v6 _) = s.ipv6

pub data RoutePlanRouteKind : Type 0 where
  allowed dns_host : RoutePlanRouteKind

pub data RoutePlanFamily : Type 0 where
  ipv4 ipv6 : RoutePlanFamily

pub record RoutePlanRouteOp : Type 0 where
  pub route : AllowedIp
  pub table_id : Option ℕ
  pub kind : RoutePlanRouteKind

pub record RoutePlanPolicyRuleOp : Type 0 where
  pub family : RoutePlanFamily
  pub table_id : ℕ
  pub fwmark : ℕ

pub record RoutePlanMetricOp : Type 0 where
  pub family : RoutePlanFamily
  pub metric : ℕ

pub record RoutePlanBypassOp : Type 0 where
  pub host : Text
  pub port : ℕ

pub record Plan : Type 0 where
  pub platform : RoutePlanPlatform
  pub requested_table : Option RouteTable
  pub allowed_routes : List AllowedIp
  pub full_tunnel : FullTunnelStatus
  pub policy_table : Option ℕ
  pub route_ops : List RoutePlanRouteOp
  pub policy_rule_ops : List RoutePlanPolicyRuleOp
  pub metric_ops : List RoutePlanMetricOp
  pub bypass_ops : List RoutePlanBypassOp
  pub bypass_count : ℕ

-- `platform == RoutePlanPlatform::Linux`, and so on.
abbrev pub is_linux : RoutePlanPlatform → Bool
is_linux RoutePlanPlatform.linux = true
is_linux RoutePlanPlatform.windows = false
is_linux RoutePlanPlatform.other = false

abbrev pub is_windows : RoutePlanPlatform → Bool
is_windows RoutePlanPlatform.linux = false
is_windows RoutePlanPlatform.windows = true
is_windows RoutePlanPlatform.other = false

abbrev pub table_is_off : Option RouteTable → Bool
table_is_off none = false
table_is_off (some RouteTable.off) = true
table_is_off (some RouteTable.auto) = false
table_is_off (some (RouteTable.id _)) = false
