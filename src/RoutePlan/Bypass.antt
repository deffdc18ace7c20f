-- ===== src/RoutePlan/Bypass.antt =====
-- The two counts of bypass routes.
use mathlib.Core.Path.{◌≡◌}
use mathlib.Core.List.{List, [], ◌∷◌}
use native.Mathlib.Omega.{arith}
use r_wg.Base.{ℕ, ◌+◌, Option, none, some, length, length-append, if◌then◌else◌}
use r_wg.Net.{IpAddr, v4, v6}
use r_wg.Config.{Text, PeerConfig, WireGuardConfig, Endpoint}
use r_wg.RoutePlan.{RoutePlanPlatform, FullTunnelStatus, table_is_off}
use r_wg.RoutePlan.Planner.{
  bypass_match, bypass_of, bypass_loop, build_bypass_ops, count_match, count_of, count_loop,
  windows_planned_bypass_count,
}

module _ (parse_ip : Text → Option IpAddr) where
  match_lem :
      (full : FullTunnelStatus) (e : Endpoint) (n : ℕ) (host : Option IpAddr)
      → count_match parse_ip full n host ≡ n + length (bypass_match parse_ip full e host)
  match_lem full e n none = ground arith
  match_lem full e n (some (v4 a)) = ground arith
  match_lem full e n (some (v6 a)) = ground arith

  count_of_lem :
      (full : FullTunnelStatus) (e : Option Endpoint) (n : ℕ)
      → count_of parse_ip full e n ≡ n + length (bypass_of parse_ip full e)
  count_of_lem full none n = omega arith
  count_of_lem full (some e) n = match_lem full e n (parse_ip e.host)

  count_loop_lem :
      (full : FullTunnelStatus) (n : ℕ) (peers : List PeerConfig)
      → count_loop parse_ip full n peers ≡ n + length (bypass_loop parse_ip full peers)
  unfolding count_loop bypass_loop
  count_loop_lem full n [] = omega arith
  count_loop_lem full n (p ∷ ps) =
      let step : count_of parse_ip full p.endpoint n
          ≡ n + length (bypass_of parse_ip full p.endpoint) =
        count_of_lem full p.endpoint n in
      let rest = count_loop_lem full (count_of parse_ip full p.endpoint n) ps in
      let all = length-append (bypass_of parse_ip full p.endpoint) (bypass_loop parse_ip full ps) in
      omega (arith, step, rest, all)

  -- Where the table is switched off, the plan has no bypass routes, whatever the count that is made
  -- from the peers; otherwise the count is the number of bypass routes of the plan. Both hold on every
  -- platform.
  pub windows_planned_bypass_count-build_bypass_ops :
      (platform : RoutePlanPlatform) (parsed : WireGuardConfig) (full : FullTunnelStatus)
      → length (build_bypass_ops parse_ip platform parsed full) ≡ (
          if table_is_off parsed.interface.table
          then 0
          else windows_planned_bypass_count parse_ip platform parsed.peers full)
  unfolding windows_planned_bypass_count build_bypass_ops
  windows_planned_bypass_count-build_bypass_ops platform parsed full =
      ground (arith, count_loop_lem full 0 parsed.peers)
