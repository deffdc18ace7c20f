-- ===== src/RoutePlan/Normalize.antt =====
-- src/core/route_plan/normalize.rs
use mathlib.Core.List.{List, [], ◌∷◌, ◌++◌}
use r_wg.Base.{ℕ, Bool, true, false, not, ◌&&◌, ◌||◌, Option, none, some, if◌then◌else◌, any, ◌==◌}
use r_wg.Net.{AllowedIp, allowed_eq, is_unspecified, is_ipv4}
use r_wg.Config.{RouteTable, PeerConfig, WireGuardConfig}
use r_wg.Dns.{DnsSelection, apply_dns_selection}
use r_wg.RoutePlan.{
  RoutePlanPlatform, FullTunnelStatus, any_family, matches, is_linux, table_is_off,
  default_full_tunnel_fwmark, linux_default_policy_table_id,
}
use r_wg.RoutePlan.Util.{route_table_id}

abbrev pub is_default : AllowedIp → Bool
is_default a = is_unspecified a.addr && a.cidr == 0

unfoldable pub wants_full_tunnel : List PeerConfig → Bool
wants_full_tunnel peers = any (λ peer. any is_default peer.allowed_ips) peers

abbrev pub fill_fwmark : Bool → Option ℕ → Option ℕ
fill_fwmark true none = some default_full_tunnel_fwmark
fill_fwmark true (some m) = some m
fill_fwmark false m = m

unfoldable pub normalize_config_for_runtime : WireGuardConfig → DnsSelection → WireGuardConfig
unfolding wants_full_tunnel apply_dns_selection
normalize_config_for_runtime c selection =
    let dns = apply_dns_selection c.interface.dns_servers c.interface.dns_search selection in
    record c {
      interface = record c.interface {
        dns_servers = dns.0;
        dns_search = dns.1;
        fwmark = fill_fwmark (wants_full_tunnel c.peers) c.interface.fwmark;
      };
    }

-- The inner loop of the peers' prefixes: those that were not seen.
unfoldable pub collect_from : List AllowedIp → List AllowedIp → List AllowedIp
collect_from seen [] = []
collect_from seen (a ∷ rest) =
    let skipped = collect_from seen rest in
    let pushed = collect_from (a ∷ seen) rest in
    if any (allowed_eq a) seen then skipped else a ∷ pushed

-- The prefixes of all peers, in order.
unfoldable pub all_allowed : List PeerConfig → List AllowedIp
all_allowed [] = []
all_allowed (p ∷ ps) = p.allowed_ips ++ all_allowed ps

unfoldable pub collect_allowed_routes : List PeerConfig → List AllowedIp
unfolding all_allowed collect_from
collect_allowed_routes peers = collect_from [] (all_allowed peers)

abbrev pub note_route : FullTunnelStatus → AllowedIp → FullTunnelStatus
note_route s a =
    if is_unspecified a.addr && a.cidr == 0
    then (if is_ipv4 a.addr then record s { ipv4 = true } else record s { ipv6 = true })
    else s

unfoldable pub detect_from : FullTunnelStatus → List AllowedIp → FullTunnelStatus
detect_from s [] = s
detect_from s (a ∷ rest) = detect_from (note_route s a) rest

unfoldable pub detect_full_tunnel : List AllowedIp → FullTunnelStatus
unfolding detect_from
detect_full_tunnel = detect_from (record { ipv4 = false; ipv6 = false })

abbrev pub policy_id : Option RouteTable → ℕ
policy_id (some (RouteTable.id n)) = n
policy_id (some RouteTable.auto) = linux_default_policy_table_id
policy_id (some RouteTable.off) = linux_default_policy_table_id
policy_id none = linux_default_policy_table_id

unfoldable pub linux_policy_table_id :
    RoutePlanPlatform → Option RouteTable → FullTunnelStatus → Option ℕ
linux_policy_table_id platform table full =
    if not (is_linux platform) || table_is_off table || not (any_family full)
    then none
    else some (policy_id table)

unfoldable pub linux_route_table_for :
    RoutePlanPlatform → Option RouteTable → Option ℕ → FullTunnelStatus → AllowedIp → Option ℕ
unfolding route_table_id
linux_route_table_for platform table none full route = route_table_id table
linux_route_table_for platform table (some policy) full route =
    if is_linux platform && matches full route.addr then some policy else route_table_id table
