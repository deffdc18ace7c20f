-- ===== src/RoutePlan/Util.antt =====
-- src/core/route_plan/util.rs: the table of a route, as a number and as a label
use r_wg.Base.{ℕ, Option, none, some, if◌then◌else◌}
use r_wg.Net.{AllowedIp}
use r_wg.Config.{RouteTable}
use r_wg.RoutePlan.{RoutePlanPlatform, FullTunnelStatus, matches}

unfoldable pub route_table_id : Option RouteTable → Option ℕ
route_table_id none = none
route_table_id (some (RouteTable.id n)) = some n
route_table_id (some RouteTable.auto) = none
route_table_id (some RouteTable.off) = none

-- The labels of the source, not yet printed.
pub data TableLabel : Type 0 where
  table : ℕ → TableLabel
  off main auto tunnel_adapter : TableLabel
  id : ℕ → TableLabel

unfoldable pub format_route_table : Option RouteTable → TableLabel
format_route_table (some RouteTable.auto) = TableLabel.auto
format_route_table (some RouteTable.off) = TableLabel.off
format_route_table (some (RouteTable.id n)) = TableLabel.id n
format_route_table none = TableLabel.main

abbrev pub linux_label : Option RouteTable → TableLabel
linux_label (some (RouteTable.id n)) = TableLabel.table n
linux_label (some RouteTable.off) = TableLabel.off
linux_label (some RouteTable.auto) = TableLabel.main
linux_label none = TableLabel.main

abbrev pub windows_label : Option RouteTable → TableLabel
windows_label (some RouteTable.off) = TableLabel.off
windows_label (some (RouteTable.id _)) = TableLabel.tunnel_adapter
windows_label (some RouteTable.auto) = TableLabel.tunnel_adapter
windows_label none = TableLabel.tunnel_adapter

unfoldable pub effective_route_table_label :
    RoutePlanPlatform → Option RouteTable → Option ℕ → AllowedIp → FullTunnelStatus → TableLabel
unfolding format_route_table
effective_route_table_label RoutePlanPlatform.linux requested none route full =
    linux_label requested
effective_route_table_label RoutePlanPlatform.linux requested (some policy) route full =
    if matches full route.addr then TableLabel.table policy else linux_label requested
effective_route_table_label RoutePlanPlatform.windows requested policy route full =
    windows_label requested
effective_route_table_label RoutePlanPlatform.other requested policy route full =
    format_route_table requested
