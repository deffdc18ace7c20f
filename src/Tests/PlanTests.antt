-- ===== src/Tests/PlanTests.antt =====
-- A configuration with a full IPv4 tunnel, planned for Linux and for Windows.
use mathlib.Core.Path.{◌≡◌, refl}
use mathlib.Core.List.{List, [], ◌∷◌, ◌++◌}
use r_wg.Base.{true, false, Option, none, some, any, length}
use r_wg.Net.{IpAddr, v4, v6, AllowedIp, allowed_eq, is_ipv4, is_ipv6}
use r_wg.Config.{Text, PeerConfig, WireGuardConfig}
use r_wg.Dns.{DnsSelection, DnsMode, DnsPreset, fill_missing, fill_missing_families}
use r_wg.RoutePlan.{RoutePlanPlatform, FullTunnelStatus, RoutePlanFamily, any_family}
use r_wg.RoutePlan.Normalize.{
  collect_allowed_routes, detect_full_tunnel, wants_full_tunnel, normalize_config_for_runtime,
}
use r_wg.RoutePlan.Planner.{build, build_bypass_ops, windows_planned_bypass_count}
use r_wg.RoutePlan.Collect.{
  IsDistinct, default4, default6, collect_allowed_routes_lem, detect_full_tunnel_lem,
}
use r_wg.RoutePlan.Rules.{has_rule, is_full, TablesAgree, build-has_rule, build-TablesAgree}
use r_wg.RoutePlan.Bypass.{windows_planned_bypass_count-build_bypass_ops}

abbrev all_v4 : AllowedIp
all_v4 = record { addr = v4 0; cidr = 0 }

abbrev local_v6 : AllowedIp
local_v6 = record { addr = v6 1; cidr = 128 }

abbrev peer : PeerConfig
peer = record {
  public_key = [];
  preshared_key = none;
  allowed_ips = all_v4 ∷ local_v6 ∷ all_v4 ∷ [];
  endpoint = some (record { host = 104 ∷ []; port = 51820 });
  persistent_keepalive = none;
}

abbrev config : WireGuardConfig
config = record {
  interface = record {
    private_key = [];
    listen_port = none;
    fwmark = none;
    addresses = [];
    dns_servers = v4 16843009 ∷ [];
    dns_search = [];
    mtu = none;
    table = none;
  };
  peers = peer ∷ [];
}

abbrev selection : DnsSelection
selection = record {
  mode = DnsMode.auto_fill_missing_families;
  preset = DnsPreset.cloudflare_standard;
}

-- A parser that takes every host for a name.
abbrev no_ip : Text → Option IpAddr
no_ip host = none

abbrev full_v4 : FullTunnelStatus
full_v4 = record { ipv4 = true; ipv6 = false }

fill_missing_families_example :
    (any is_ipv4 (fill_missing (v4 1 ∷ []) DnsPreset.adguard_family) ≡ true)
    × (any is_ipv6 (fill_missing (v4 1 ∷ []) DnsPreset.adguard_family) ≡ true)
    × ((added : List IpAddr) × (fill_missing (v4 1 ∷ []) DnsPreset.adguard_family
          ≡ (v4 1 ∷ []) ++ added))
    × (any is_ipv4 (v4 1 ∷ []) ≡ true
        → any is_ipv6 (v4 1 ∷ []) ≡ true
        → fill_missing (v4 1 ∷ []) DnsPreset.adguard_family ≡ v4 1 ∷ [])
fill_missing_families_example = fill_missing_families (v4 1 ∷ []) DnsPreset.adguard_family

collect_allowed_routes_example :
    IsDistinct (collect_allowed_routes (peer ∷ peer ∷ []))
    × (any (allowed_eq local_v6) (collect_allowed_routes (peer ∷ peer ∷ []))
        ≡ any (λ p. any (allowed_eq local_v6) p.allowed_ips) (peer ∷ peer ∷ []))
collect_allowed_routes_example = collect_allowed_routes_lem (peer ∷ peer ∷ []) local_v6

detect_full_tunnel_example :
    ((detect_full_tunnel (collect_allowed_routes (peer ∷ []))).ipv4
      ≡ any (λ p. any default4 p.allowed_ips) (peer ∷ []))
    × ((detect_full_tunnel (collect_allowed_routes (peer ∷ []))).ipv6
        ≡ any (λ p. any default6 p.allowed_ips) (peer ∷ []))
    × (any_family (detect_full_tunnel (collect_allowed_routes (peer ∷ [])))
        ≡ wants_full_tunnel (peer ∷ []))
detect_full_tunnel_example = detect_full_tunnel_lem (peer ∷ [])

build-has_rule_example :
    has_rule RoutePlanFamily.ipv4
      (build no_ip RoutePlanPlatform.linux
        (normalize_config_for_runtime config selection)).policy_rule_ops
    ≡ is_full
        (build no_ip RoutePlanPlatform.linux
          (normalize_config_for_runtime config selection)).full_tunnel
        RoutePlanFamily.ipv4
build-has_rule_example = build-has_rule no_ip config selection RoutePlanFamily.ipv4 refl

build-TablesAgree_example :
    TablesAgree
      (build no_ip RoutePlanPlatform.linux config).policy_rule_ops
      (build no_ip RoutePlanPlatform.linux config).route_ops
build-TablesAgree_example = build-TablesAgree no_ip config

windows_planned_bypass_count_example :
    length (build_bypass_ops no_ip RoutePlanPlatform.windows config full_v4)
    ≡ windows_planned_bypass_count no_ip RoutePlanPlatform.windows config.peers full_v4
windows_planned_bypass_count_example =
    windows_planned_bypass_count-build_bypass_ops no_ip RoutePlanPlatform.windows config full_v4
