-- ===== src/Linux/Undo.antt =====
-- The calls that take things back: netlink.rs, the cleanups of policy.rs, recovery/cleanup.rs and
-- the clearing of the files. Requests of netlink that list objects, and deletions, are calls.
use mathlib.Core.List.{List, [], ◌∷◌}
use r_wg.Base.{Bool, true, false, ◌&&◌, Option, none, some, if◌then◌else◌, any}
use r_wg.Base.Result.{Result, ok, err}
use r_wg.Config.{InterfaceAddress}
use r_wg.Linux.{NetworkError, PolicyRoutingState, RecoveryRouteSnapshot, RecoveryPolicySnapshot}
use r_wg.Linux.Machine.{
  Call, Oracle, CleanupState, Outcome, Action, ◌>>=◌, ◌>>◌, pure, fail, attempt, get_sys,
  get_machine, same, call, same_route, same_address, without_route, without_rule, without_address,
  remove,
}
use r_wg.Linux.Match.{is_policy_rule}
use r_wg.Linux.Rules.{RuleMessage, policy_rule_messages}
use r_wg.Linux.Snapshots.{policy_snapshot}
use r_wg.RoutePlan.{RoutePlanFamily}
use r_wg.RoutePlan.Rules.{family_eq}

abbrev pub unless_done : Result NetworkError Unit → Action Unit → Action Unit
unless_done (ok _) m = pure tt
unless_done (err _) m = m

abbrev pub is_idle : CleanupState → Bool
is_idle CleanupState.idle = true
is_idle CleanupState.in_progress = false
is_idle CleanupState.done = false

-- `begin_cleanup_once` and `finish_cleanup_once`: the state that is stored at the end.
unfoldable pub finish_cleanup_once : Result NetworkError Unit → CleanupState
finish_cleanup_once (ok _) = CleanupState.done
finish_cleanup_once (err _) = CleanupState.idle

abbrev pub returned : Result NetworkError Unit → Action Unit
returned (ok _) = pure tt
returned (err e) = fail e

abbrev pub rules_cleanup_is : CleanupState → Action Unit
rules_cleanup_is c s = (Outcome.done tt, record s { rules_cleanup = c })

abbrev pub routes_cleanup_is : CleanupState → Action Unit
routes_cleanup_is c s = (Outcome.done tt, record s { routes_cleanup = c })

module _ (o : Oracle) where
  -- netlink.rs
  unfoldable pub delete_address : InterfaceAddress → Action Unit
  unfolding remove
  delete_address a = do
    call o Call.list_addresses same
    m ← get_machine
    if any (same_address a) m.addresses
        then call o Call.delete_address (without_address a)
        else pure tt

  unfoldable pub delete_route : RecoveryRouteSnapshot → Action Unit
  unfolding remove
  delete_route r = do
    deleted ← attempt (call o Call.delete_route (without_route r))
    unless_done deleted (do
      call o Call.list_routes same
      m ← get_machine
      if any (same_route r) m.routes then call o Call.delete_route (without_route r) else pure tt)

  -- policy.rs. The rules that are listed are of the family.
  unfoldable pub delete_policy_rules :
      RoutePlanFamily → Option PolicyRoutingState → List RuleMessage → Action Unit
  unfolding remove is_policy_rule
  delete_policy_rules family policy [] = pure tt
  delete_policy_rules family policy (r ∷ rs) =
      let rest = delete_policy_rules family policy rs in
      if family_eq r.family family && is_policy_rule r policy
      then call o Call.delete_rule (without_rule r) >> rest
      else rest

  unfoldable pub cleanup_policy_rules_family :
      RoutePlanFamily → Option PolicyRoutingState → Action Unit
  unfolding delete_policy_rules
  cleanup_policy_rules_family family policy = do
    call o Call.list_rules same
    m ← get_machine
    delete_policy_rules family policy m.rules

  unfoldable pub cleanup_policy_rules : Option PolicyRoutingState → Action Unit
  unfolding cleanup_policy_rules_family
  cleanup_policy_rules policy = do
    cleanup_policy_rules_family RoutePlanFamily.ipv4 policy
    cleanup_policy_rules_family RoutePlanFamily.ipv6 policy

  unfoldable pub cleanup_policy_rules_once : Option PolicyRoutingState → Action Unit
  unfolding cleanup_policy_rules finish_cleanup_once
  cleanup_policy_rules_once policy = do
    s ← get_sys
    if is_idle s.rules_cleanup
        then (do
          rules_cleanup_is CleanupState.in_progress
          result ← attempt (cleanup_policy_rules policy)
          rules_cleanup_is (finish_cleanup_once result)
          returned result)
        else pure tt

  -- The default routes that it deletes are those of other interfaces: the machine has none.
  unfoldable pub cleanup_stale_default_routes_once : Action Unit
  unfolding finish_cleanup_once
  cleanup_stale_default_routes_once = do
    s ← get_sys
    if is_idle s.routes_cleanup
        then (do
          routes_cleanup_is CleanupState.in_progress
          result ← attempt (call o Call.delete_stale_routes same)
          routes_cleanup_is (finish_cleanup_once result)
          returned result)
        else pure tt

  -- recovery/cleanup.rs
  unfoldable pub cleanup_route_snapshot : RecoveryRouteSnapshot → Action Unit
  unfolding remove
  cleanup_route_snapshot r = do
    _ ← attempt (call o Call.delete_route (without_route r))
    call o Call.list_routes same
    m ← get_machine
    if any (same_route r) m.routes
        then (do _ ← attempt (call o Call.delete_route (without_route r)); pure tt)
        else pure tt

  unfoldable pub delete_rules : List RuleMessage → Action Unit
  unfolding remove
  delete_rules [] = pure tt
  delete_rules (r ∷ rs) = do _ ← attempt (call o Call.delete_rule (without_rule r)); delete_rules rs

  unfoldable pub cleanup_policy_snapshot : RecoveryPolicySnapshot → Action Unit
  unfolding delete_rules policy_rule_messages
  cleanup_policy_snapshot p = delete_rules (policy_rule_messages p)

  unfoldable pub cleanup_policy_state : PolicyRoutingState → Action Unit
  unfolding cleanup_policy_snapshot
  cleanup_policy_state p = cleanup_policy_snapshot (policy_snapshot p)

  unfoldable pub cleanup_route_snapshots : List RecoveryRouteSnapshot → Action Unit
  unfolding cleanup_route_snapshot
  cleanup_route_snapshots [] = pure tt
  cleanup_route_snapshots (r ∷ rs) = do
    _ ← attempt (cleanup_route_snapshot r)
    cleanup_route_snapshots rs

  abbrev pub cleanup_policy_snapshots : Option RecoveryPolicySnapshot → Action Unit
  unfolding cleanup_policy_snapshot
  cleanup_policy_snapshots none = pure tt
  cleanup_policy_snapshots (some p) = do _ ← attempt (cleanup_policy_snapshot p); pure tt

  unfoldable pub cleanup_exact_snapshot :
      List RecoveryRouteSnapshot → Option RecoveryPolicySnapshot → Action Unit
  unfolding cleanup_route_snapshots cleanup_policy_snapshot
  cleanup_exact_snapshot routes policy = do
    cleanup_route_snapshots routes
    cleanup_policy_snapshots policy

  -- recovery/journal.rs and recovery/last_apply_report.rs
  unfoldable pub clear_recovery_journal : Action Unit
  clear_recovery_journal = call o Call.remove_journal (λ m. record m { journal = none })

  unfoldable pub clear_persisted_apply_report : Action Unit
  clear_persisted_apply_report = call o Call.remove_report (λ m. record m { report_file = none })

  -- killswitch.rs and dns/mod.rs, one call each
  unfoldable pub cleanup_kill_switch : Action Unit
  cleanup_kill_switch = call o Call.cleanup_kill_switch (λ m. record m { kill_switch = none })

  unfoldable pub cleanup_dns : Action Unit
  cleanup_dns = call o Call.cleanup_dns (λ m. record m { dns = none })
