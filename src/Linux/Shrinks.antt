-- ===== src/Linux/Shrinks.antt =====
-- The cleanups only take away: they keep every invariant that taking away keeps.
use mathlib.Core.List.{List, [], ◌∷◌}
use r_wg.Base.{ℕ, ◌&&◌, false, Option, none, some, any}
use r_wg.Base.Result.{Result, ok, err}
use r_wg.Config.{InterfaceAddress}
use r_wg.Linux.{
  NetworkError, AppliedNetworkState, PolicyRoutingState, RecoveryRouteSnapshot,
  RecoveryPolicySnapshot, KillSwitchState,
}
use r_wg.Linux.Cleanup.{
  merge_cleanup_results, delete_addresses, delete_routes, cleanup_policy, cleanup_dns_state,
  cleanup_link, cleanup_if_linked, cleanup_with_netlink, cleanup_guard, clear_files,
  cleanup_network_config_impl,
}
use r_wg.Linux.Keeps.{
  Keeps, Keeps-pure, Keeps-fail, Keeps-chain, Keeps-then, Keeps-attempt, Keeps-if, Keeps-call,
  Keeps-ask, Keeps-get_sys, Keeps-get_machine,
}
use r_wg.Linux.Machine.{
  Machine, Oracle, CleanupState, Action, same_route, same_address, without_route, without_rule,
  without_address,
}
use r_wg.Linux.Match.{is_policy_rule}
use r_wg.Linux.Rules.{RuleMessage, policy_rule_messages}
use r_wg.Linux.Snapshots.{is_allowed, route_snapshot, policy_snapshot}
use r_wg.Linux.Undo.{
  unless_done, is_idle, returned, rules_cleanup_is, delete_address, delete_route,
  delete_policy_rules, cleanup_policy_rules_family, cleanup_policy_rules, cleanup_policy_rules_once,
  routes_cleanup_is, cleanup_stale_default_routes_once, delete_rules, cleanup_policy_snapshot,
  cleanup_policy_state, cleanup_kill_switch, cleanup_dns, cleanup_route_snapshot,
  cleanup_route_snapshots, cleanup_policy_snapshots, cleanup_exact_snapshot,
}
use r_wg.RoutePlan.{RoutePlanFamily, RoutePlanRouteOp, table_is_off}
use r_wg.RoutePlan.Rules.{family_eq}

pub record ShrinksRouting (I : Machine → Type 0) : Type 0 where
  pub route : (r : RecoveryRouteSnapshot) (m : Machine) → I m → I (without_route r m)
  pub rule : (r : RuleMessage) (m : Machine) → I m → I (without_rule r m)

pub record Shrinks (I : Machine → Type 0) : Type 0 where
  pub routing : ShrinksRouting I
  pub address : (a : InterfaceAddress) (m : Machine) → I m → I (without_address a m)
  pub guard : (m : Machine) → I m → I (record m { kill_switch = none })
  pub resolver : (m : Machine) → I m → I (record m { dns = none })

module _ {I : Machine → Type 0} where
  pub Keeps-returned : (r : Result NetworkError Unit) → Keeps I (returned r)
  Keeps-returned (ok _) = Keeps-pure
  Keeps-returned (err e) = Keeps-fail

  Keeps-unless_done :
      (r : Result NetworkError Unit) {m : Action Unit} → Keeps I m → Keeps I (unless_done r m)
  Keeps-unless_done (ok _) k = Keeps-pure
  Keeps-unless_done (err e) k = k

  Keeps-rules_cleanup_is : {c : CleanupState} → Keeps I (rules_cleanup_is c)
  Keeps-rules_cleanup_is = record { keeps = λ s i. i }

  Keeps-routes_cleanup_is : {c : CleanupState} → Keeps I (routes_cleanup_is c)
  Keeps-routes_cleanup_is = record { keeps = λ s i. i }

module _ (I : Machine → Type 0) (h : ShrinksRouting I) (o : Oracle) where
  Keeps-delete_route : (r : RecoveryRouteSnapshot) → Keeps I (delete_route o r)
  unfolding delete_route
  Keeps-delete_route r = Keeps-chain (Keeps-attempt (Keeps-call _ _ _ (h.route r))) (λ done.
      Keeps-unless_done done (
        Keeps-then (Keeps-ask _ _) (
          Keeps-chain Keeps-get_machine (λ m.
            Keeps-if (any (same_route r) m.routes) (Keeps-call _ _ _ (h.route r)) Keeps-pure))))

  Keeps-delete_policy_rules :
      (f : RoutePlanFamily) (p : Option PolicyRoutingState) (rs : List RuleMessage)
      → Keeps I (delete_policy_rules o f p rs)
  unfolding delete_policy_rules
  Keeps-delete_policy_rules f p [] = Keeps-pure
  Keeps-delete_policy_rules f p (r ∷ rs) =
      Keeps-if (family_eq r.family f && is_policy_rule r p)
        (Keeps-then (Keeps-call _ _ _ (h.rule r)) (Keeps-delete_policy_rules f p rs))
        (Keeps-delete_policy_rules f p rs)

  Keeps-cleanup_policy_rules_family :
      (f : RoutePlanFamily) (p : Option PolicyRoutingState)
      → Keeps I (cleanup_policy_rules_family o f p)
  unfolding cleanup_policy_rules_family
  Keeps-cleanup_policy_rules_family f p =
      Keeps-then (Keeps-ask _ _)
        (Keeps-chain Keeps-get_machine (λ m. Keeps-delete_policy_rules f p m.rules))

  pub Keeps-cleanup_policy_rules_once :
      (p : Option PolicyRoutingState) → Keeps I (cleanup_policy_rules_once o p)
  unfolding cleanup_policy_rules_once cleanup_policy_rules
  Keeps-cleanup_policy_rules_once p = Keeps-chain Keeps-get_sys (λ s.
      Keeps-if (is_idle s.rules_cleanup)
        (Keeps-then Keeps-rules_cleanup_is (
          Keeps-chain
            (Keeps-attempt (
              Keeps-then (Keeps-cleanup_policy_rules_family RoutePlanFamily.ipv4 p)
                (Keeps-cleanup_policy_rules_family RoutePlanFamily.ipv6 p)))
            (λ r. Keeps-then Keeps-rules_cleanup_is (Keeps-returned r))))
        Keeps-pure)

  pub Keeps-cleanup_stale_default_routes_once : Keeps I (cleanup_stale_default_routes_once o)
  unfolding cleanup_stale_default_routes_once
  Keeps-cleanup_stale_default_routes_once = Keeps-chain Keeps-get_sys (λ s.
      Keeps-if (is_idle s.routes_cleanup)
        (Keeps-then Keeps-routes_cleanup_is (
          Keeps-chain (Keeps-attempt (Keeps-ask _ _))
            (λ r. Keeps-then Keeps-routes_cleanup_is (Keeps-returned r))))
        Keeps-pure)

  Keeps-delete_rules : (rs : List RuleMessage) → Keeps I (delete_rules o rs)
  unfolding delete_rules
  Keeps-delete_rules [] = Keeps-pure
  Keeps-delete_rules (r ∷ rs) =
      Keeps-chain (Keeps-attempt (Keeps-call _ _ _ (h.rule r))) (λ _. Keeps-delete_rules rs)

  Keeps-cleanup_policy : (p : Option PolicyRoutingState) → Keeps I (cleanup_policy o p)
  unfolding cleanup_policy cleanup_policy_state cleanup_policy_snapshot
  Keeps-cleanup_policy none = Keeps-pure
  Keeps-cleanup_policy (some p) =
      Keeps-chain (Keeps-attempt (Keeps-delete_rules (policy_rule_messages (policy_snapshot p))))
        (λ _. Keeps-pure)

  Keeps-cleanup_route_snapshot : (r : RecoveryRouteSnapshot) → Keeps I (cleanup_route_snapshot o r)
  unfolding cleanup_route_snapshot
  Keeps-cleanup_route_snapshot r = Keeps-chain (Keeps-attempt (Keeps-call _ _ _ (h.route r))) (λ _.
      Keeps-then (Keeps-ask _ _) (
        Keeps-chain Keeps-get_machine (λ m.
          Keeps-if (any (same_route r) m.routes)
            (Keeps-chain (Keeps-attempt (Keeps-call _ _ _ (h.route r))) (λ _. Keeps-pure))
            Keeps-pure)))

  Keeps-cleanup_route_snapshots :
      (routes : List RecoveryRouteSnapshot) → Keeps I (cleanup_route_snapshots o routes)
  unfolding cleanup_route_snapshots
  Keeps-cleanup_route_snapshots [] = Keeps-pure
  Keeps-cleanup_route_snapshots (r ∷ routes) =
      Keeps-chain (Keeps-attempt (Keeps-cleanup_route_snapshot r))
        (λ _. Keeps-cleanup_route_snapshots routes)

  Keeps-cleanup_policy_snapshots :
      (p : Option RecoveryPolicySnapshot) → Keeps I (cleanup_policy_snapshots o p)
  unfolding cleanup_policy_snapshot
  Keeps-cleanup_policy_snapshots none = Keeps-pure
  Keeps-cleanup_policy_snapshots (some p) =
      Keeps-chain (Keeps-attempt (Keeps-delete_rules (policy_rule_messages p))) (λ _. Keeps-pure)

  pub Keeps-cleanup_exact_snapshot :
      (routes : List RecoveryRouteSnapshot) (p : Option RecoveryPolicySnapshot)
      → Keeps I (cleanup_exact_snapshot o routes p)
  unfolding cleanup_exact_snapshot
  Keeps-cleanup_exact_snapshot routes p =
      Keeps-then (Keeps-cleanup_route_snapshots routes) (Keeps-cleanup_policy_snapshots p)

module _ (I : Machine → Type 0) (h : Shrinks I) (o : Oracle) where
  Keeps-delete_address : (a : InterfaceAddress) → Keeps I (delete_address o a)
  unfolding delete_address
  Keeps-delete_address a = Keeps-then (Keeps-ask _ _) (
      Keeps-chain Keeps-get_machine (λ m.
        Keeps-if (any (same_address a) m.addresses) (Keeps-call _ _ _ (h.address a)) Keeps-pure))

  Keeps-delete_addresses : (all : List InterfaceAddress) → Keeps I (delete_addresses o all)
  unfolding delete_addresses
  Keeps-delete_addresses [] = Keeps-pure
  Keeps-delete_addresses (a ∷ rest) =
      Keeps-chain (Keeps-attempt (Keeps-delete_address a)) (λ _. Keeps-delete_addresses rest)

  Keeps-delete_routes : (ops : List RoutePlanRouteOp) → Keeps I (delete_routes o ops)
  unfolding delete_routes
  Keeps-delete_routes [] = Keeps-pure
  Keeps-delete_routes (op ∷ ops) =
      Keeps-if (is_allowed op.kind)
        (Keeps-chain (Keeps-attempt (Keeps-delete_route I h.routing o (route_snapshot op)))
          (λ _. Keeps-delete_routes ops))
        (Keeps-delete_routes ops)

  Keeps-cleanup_dns_state : (d : Option ℕ) → Keeps I (cleanup_dns_state o d)
  unfolding cleanup_dns
  Keeps-cleanup_dns_state none = Keeps-pure
  Keeps-cleanup_dns_state (some _) = Keeps-call _ _ _ h.resolver

  Keeps-cleanup_guard : (k : Option KillSwitchState) → Keeps I (cleanup_guard o k)
  unfolding cleanup_kill_switch
  Keeps-cleanup_guard none = Keeps-pure
  Keeps-cleanup_guard (some _) = Keeps-call _ _ _ h.guard

  Keeps-cleanup_link : (state : AppliedNetworkState) → Keeps I (cleanup_link o state)
  unfolding cleanup_link
  Keeps-cleanup_link state = Keeps-then (Keeps-delete_addresses state.addresses) (
      Keeps-then (Keeps-if (table_is_off state.table) Keeps-pure (Keeps-delete_routes state.routes))
        (Keeps-chain (Keeps-attempt (Keeps-cleanup_dns_state state.dns))
          (λ d. Keeps-then (Keeps-cleanup_policy I h.routing o state.policy) (Keeps-returned d))))

  Keeps-cleanup_if_linked :
      (state : AppliedNetworkState) (r : Result NetworkError Unit)
      → Keeps I (cleanup_if_linked o state r)
  unfolding cleanup_link
  Keeps-cleanup_if_linked state (ok _) = Keeps-cleanup_link state
  Keeps-cleanup_if_linked state (err e) = Keeps-pure

  pub Keeps-cleanup_network_config_impl :
      (state : AppliedNetworkState) → Keeps I (cleanup_network_config_impl o state false)
  unfolding cleanup_network_config_impl cleanup_with_netlink clear_files
  Keeps-cleanup_network_config_impl state =
      Keeps-chain
        (Keeps-attempt (
          Keeps-then (Keeps-ask _ _)
            (Keeps-chain (Keeps-attempt (Keeps-ask _ _)) (Keeps-cleanup_if_linked state))))
        (λ r.
          Keeps-chain (Keeps-attempt (Keeps-cleanup_guard state.kill_switch))
            (λ g. Keeps-then (Keeps-returned (merge_cleanup_results r g)) Keeps-pure))
