-- ===== src/Linux/Cleanup.antt =====
-- cleanup_pipeline.rs
use mathlib.Core.List.{List, [], ◌∷◌}
use r_wg.Base.{ℕ, Bool, true, Option, none, some, if◌then◌else◌}
use r_wg.Base.Result.{Result, ok, err}
use r_wg.Config.{InterfaceAddress}
use r_wg.Linux.{NetworkError, AppliedNetworkState, PolicyRoutingState, KillSwitchState}
use r_wg.Linux.Machine.{Call, Oracle, Action, ◌>>=◌, ◌>>◌, pure, attempt, same, call}
use r_wg.Linux.Snapshots.{is_allowed, route_snapshot}
use r_wg.Linux.Undo.{
  returned, delete_address, delete_route, cleanup_policy_state, clear_recovery_journal,
  clear_persisted_apply_report, cleanup_kill_switch, cleanup_dns,
}
use r_wg.RoutePlan.{RoutePlanRouteOp, table_is_off}

unfoldable pub merge_cleanup_results :
    Result NetworkError Unit → Result NetworkError Unit → Result NetworkError Unit
merge_cleanup_results (ok _) kill_switch = kill_switch
merge_cleanup_results (err e) kill_switch = err e

module _ (o : Oracle) where
  unfoldable pub delete_addresses : List InterfaceAddress → Action Unit
  unfolding delete_address
  delete_addresses [] = pure tt
  delete_addresses (a ∷ rest) = do _ ← attempt (delete_address o a); delete_addresses rest

  unfoldable pub delete_routes : List RoutePlanRouteOp → Action Unit
  unfolding delete_route
  delete_routes [] = pure tt
  delete_routes (op ∷ ops) =
      let rest = delete_routes ops in
      if is_allowed op.kind
      then (do _ ← attempt (delete_route o (route_snapshot op)); rest)
      else rest

  unfoldable pub cleanup_policy : Option PolicyRoutingState → Action Unit
  unfolding cleanup_policy_state
  cleanup_policy none = pure tt
  cleanup_policy (some p) = do _ ← attempt (cleanup_policy_state o p); pure tt

  abbrev pub cleanup_dns_state : Option ℕ → Action Unit
  unfolding cleanup_dns
  cleanup_dns_state none = pure tt
  cleanup_dns_state (some _) = cleanup_dns o

  -- What is undone when the interface is found; the result is that of the resolver.
  unfoldable pub cleanup_link : AppliedNetworkState → Action Unit
  unfolding delete_addresses delete_routes cleanup_policy cleanup_dns
  cleanup_link state = do
    delete_addresses state.addresses
    if table_is_off state.table then pure tt else delete_routes state.routes
    dns ← attempt (cleanup_dns_state state.dns)
    cleanup_policy state.policy
    returned dns

  abbrev pub cleanup_if_linked : AppliedNetworkState → Result NetworkError Unit → Action Unit
  unfolding cleanup_link
  cleanup_if_linked state (ok _) = cleanup_link state
  cleanup_if_linked state (err _) = pure tt

  unfoldable pub cleanup_with_netlink : AppliedNetworkState → Action Unit
  unfolding cleanup_link
  cleanup_with_netlink state = do
    call o Call.open_netlink same
    link ← attempt (call o Call.find_link same)
    cleanup_if_linked state link

  abbrev pub cleanup_guard : Option KillSwitchState → Action Unit
  unfolding cleanup_kill_switch
  cleanup_guard none = pure tt
  cleanup_guard (some _) = cleanup_kill_switch o

  unfoldable pub clear_files : Bool → Action Unit
  unfolding clear_recovery_journal clear_persisted_apply_report
  clear_files clear_journal =
      if clear_journal then clear_recovery_journal o >> clear_persisted_apply_report o else pure tt

  unfoldable pub cleanup_network_config_impl : AppliedNetworkState → Bool → Action Unit
  unfolding cleanup_with_netlink cleanup_kill_switch merge_cleanup_results clear_files
  cleanup_network_config_impl state clear_journal = do
    result ← attempt (cleanup_with_netlink state)
    guard ← attempt (cleanup_guard state.kill_switch)
    returned (merge_cleanup_results result guard)
    clear_files clear_journal

  unfoldable pub cleanup_network_config : AppliedNetworkState → Action Unit
  unfolding cleanup_network_config_impl
  cleanup_network_config state = cleanup_network_config_impl state true
