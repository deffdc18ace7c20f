-- ===== src/RoutePlan/Rules.antt =====
-- The policy rules of a Linux plan and the tables of its routes.
use mathlib.Core.Path.{◌≡◌, refl, ap, ◌∙◌}
use mathlib.Core.List.{List, [], ◌∷◌, ◌++◌, map}
use native.Mathlib.Omega.{arith}
use r_wg.Base.{ℕ, Bool, true, false, Option, none, some, any, All, if◌then◌else◌}
use r_wg.Net.{IpAddr, v4, v6, AllowedIp}
use r_wg.Config.{RouteTable, Text, WireGuardConfig}
use r_wg.Dns.{DnsSelection}
use r_wg.RoutePlan.{
  RoutePlanPlatform, FullTunnelStatus, any_family, table_is_off, RoutePlanRouteOp, RoutePlanFamily,
  RoutePlanPolicyRuleOp,
}
use r_wg.RoutePlan.Normalize.{
  wants_full_tunnel, normalize_config_for_runtime, collect_allowed_routes, detect_full_tunnel,
  linux_policy_table_id, linux_route_table_for, fill_fwmark,
}
use r_wg.RoutePlan.Planner.{
  route_op, build_route_ops, build_policy_rule_ops, rules, rules_for, build,
}
use r_wg.RoutePlan.Collect.{detect_full_tunnel_lem}

abbrev pub family_eq : RoutePlanFamily → RoutePlanFamily → Bool
family_eq RoutePlanFamily.ipv4 RoutePlanFamily.ipv4 = true
family_eq RoutePlanFamily.ipv6 RoutePlanFamily.ipv6 = true
family_eq RoutePlanFamily.ipv4 RoutePlanFamily.ipv6 = false
family_eq RoutePlanFamily.ipv6 RoutePlanFamily.ipv4 = false

abbrev pub family_of : IpAddr → RoutePlanFamily
family_of (v4 _) = RoutePlanFamily.ipv4
family_of (v6 _) = RoutePlanFamily.ipv6

abbrev pub is_full : FullTunnelStatus → RoutePlanFamily → Bool
is_full s RoutePlanFamily.ipv4 = s.ipv4
is_full s RoutePlanFamily.ipv6 = s.ipv6

-- A rule for the family.
abbrev pub has_rule : RoutePlanFamily → List RoutePlanPolicyRuleOp → Bool
has_rule f ops = any (λ r. family_eq f r.family) ops

-- Each route whose family has a rule goes into the rule's table.
abbrev pub TablesAgree : List RoutePlanPolicyRuleOp → List RoutePlanRouteOp → Type 0
TablesAgree rules routes =
    All
      (λ op.
        All
          (λ r. family_eq (family_of op.route.addr) r.family ≡ true → op.table_id ≡ some r.table_id)
          rules)
      routes

has_rule-rules :
    (full : FullTunnelStatus) (table mark : ℕ) (f : RoutePlanFamily)
    → has_rule f (rules full table mark) ≡ is_full full f
has_rule-rules full table mark RoutePlanFamily.ipv4 = ground arith
has_rule-rules full table mark RoutePlanFamily.ipv6 = ground arith

linux_rules_lem :
    (full : FullTunnelStatus) (wanted : Bool) (mark : Option ℕ) (table : Option RouteTable)
    (f : RoutePlanFamily)
    → table_is_off table ≡ false
    → any_family full ≡ wanted
    → has_rule f (
        rules_for full
          (linux_policy_table_id RoutePlanPlatform.linux table full)
          (fill_fwmark wanted mark))
      ≡ is_full full f
unfolding linux_policy_table_id
linux_rules_lem full true none table f h k = rw (h, k) (has_rule-rules full _ _ f)
linux_rules_lem full true (some m) table f h k = rw (h, k) (has_rule-rules full _ _ f)
linux_rules_lem full false mark table RoutePlanFamily.ipv4 h k = ground arith
linux_rules_lem full false mark table RoutePlanFamily.ipv6 h k = ground arith

module _ (parse_ip : Text → Option IpAddr) where
  -- On Linux, the plan of a configuration that was normalized for the start, and whose table is
  -- not switched off, has a policy rule for a family exactly if the plan's tunnel is full for it.
  pub build-has_rule :
      (c : WireGuardConfig) (selection : DnsSelection) (f : RoutePlanFamily)
      → table_is_off c.interface.table ≡ false
      → has_rule f
          (build parse_ip RoutePlanPlatform.linux
            (normalize_config_for_runtime c selection)).policy_rule_ops
        ≡ is_full
            (build parse_ip RoutePlanPlatform.linux
              (normalize_config_for_runtime c selection)).full_tunnel
            f
  unfolding build normalize_config_for_runtime build_policy_rule_ops
  build-has_rule c selection f h =
      let full = detect_full_tunnel (collect_allowed_routes c.peers) in
      ap
        (λ off. has_rule f (
          if off
          then []
          else rules_for full (linux_policy_table_id RoutePlanPlatform.linux c.interface.table full)
              (fill_fwmark (wants_full_tunnel c.peers) c.interface.fwmark)))
        h
      ∙ linux_rules_lem full (wants_full_tunnel c.peers) c.interface.fwmark c.interface.table f h
          (detect_full_tunnel_lem c.peers).2

rules_table_lem :
    (b4 b6 : Bool) (t m : ℕ) (table : Option RouteTable) (addr : IpAddr) (cidr : ℕ)
    → All
        (λ r.
          family_eq (family_of addr) r.family ≡ true
          → linux_route_table_for RoutePlanPlatform.linux table
              (some t)
              (record { ipv4 = b4; ipv6 = b6 })
              (record { addr = addr; cidr = cidr })
            ≡ some r.table_id)
        (rules (record { ipv4 = b4; ipv6 = b6 }) t m)
unfolding linux_route_table_for
rules_table_lem true true t m table (v4 n) c = ((λ _. refl), ((λ e. absurd (cc)), tt))
rules_table_lem true true t m table (v6 n) c = ((λ e. absurd (cc)), ((λ _. refl), tt))
rules_table_lem true false t m table (v4 n) c = ((λ _. refl), tt)
rules_table_lem true false t m table (v6 n) c = ((λ e. absurd (cc)), tt)
rules_table_lem false true t m table (v4 n) c = ((λ e. absurd (cc)), tt)
rules_table_lem false true t m table (v6 n) c = ((λ _. refl), tt)
rules_table_lem false false t m table (v4 n) c = tt
rules_table_lem false false t m table (v6 n) c = tt

rule_table_lem :
    (full : FullTunnelStatus) (policy mark : Option ℕ) (table : Option RouteTable) (a : AllowedIp)
    → All
        (λ r.
          family_eq (family_of a.addr) r.family ≡ true
          → linux_route_table_for RoutePlanPlatform.linux table policy full a ≡ some r.table_id)
        (rules_for full policy mark)
rule_table_lem full none mark table a = tt
rule_table_lem full (some t) none table a = tt
rule_table_lem full (some t) (some m) table a =
    rules_table_lem full.ipv4 full.ipv6 t m table a.addr a.cidr

routes_lem :
    (full : FullTunnelStatus) (policy mark : Option ℕ) (table : Option RouteTable)
    (routes : List AllowedIp)
    → TablesAgree
        (rules_for full policy mark)
        (map (route_op RoutePlanPlatform.linux table policy full) routes ++ [])
unfolding route_op
routes_lem full policy mark table [] = tt
routes_lem full policy mark table (a ∷ rest) =
    (rule_table_lem full policy mark table a, routes_lem full policy mark table rest)

off_lem :
    (off : Bool) (rules : List RoutePlanPolicyRuleOp) (ops : List RoutePlanRouteOp)
    → TablesAgree rules ops
    → TablesAgree (if off then [] else rules) (if off then [] else ops)
off_lem true rules ops h = tt
off_lem false rules ops h = h

module _ (parse_ip : Text → Option IpAddr) where
  -- On Linux, every route of a plan whose family has a policy rule goes into the table that the
  -- rule points to.
  pub build-TablesAgree :
      (c : WireGuardConfig)
      → TablesAgree
          (build parse_ip RoutePlanPlatform.linux c).policy_rule_ops
          (build parse_ip RoutePlanPlatform.linux c).route_ops
  unfolding build build_route_ops build_policy_rule_ops
  build-TablesAgree c =
      let full = detect_full_tunnel (collect_allowed_routes c.peers) in
      off_lem (table_is_off c.interface.table) _ _ (
        routes_lem full (linux_policy_table_id RoutePlanPlatform.linux c.interface.table full)
          c.interface.fwmark c.interface.table (collect_allowed_routes c.peers))
