-- ===== src/Linux/Recovery.antt =====
-- recovery/startup.rs: the repair at the start of the service, with the system's backend
use r_wg.Base.{Bool, not, ◌||◌, Option, none, some, if◌then◌else◌, is_empty, is_some}
use r_wg.Base.Result.{Result, ok, err}
use r_wg.Linux.{NetworkError, RecoveryJournal}
use r_wg.Linux.Cleanup.{cleanup_dns_state, cleanup_guard}
use r_wg.Linux.Machine.{
  Call, CleanupState, Oracle, Sys, Action, ◌>>=◌, ◌>>◌, pure, attempt, get_machine, same, call,
}
use r_wg.Linux.Undo.{
  cleanup_exact_snapshot, cleanup_policy_rules_once, cleanup_stale_default_routes_once,
  clear_recovery_journal,
}

unfoldable pub journal_requires_exact_cleanup : RecoveryJournal → Bool
journal_requires_exact_cleanup j =
    not (is_empty j.routes) || is_some j.policy || is_some j.kill_switch

module _ (o : Oracle) where
  unfoldable pub load_recovery_journal : Action (Option RecoveryJournal)
  load_recovery_journal = do call o Call.read_journal same; m ← get_machine; pure m.journal

  abbrev pub repair_stale_routes : Result NetworkError Unit → Action Unit
  unfolding cleanup_stale_default_routes_once
  repair_stale_routes (ok _) = do _ ← attempt (cleanup_stale_default_routes_once o); pure tt
  repair_stale_routes (err _) = pure tt

  unfoldable pub stateless_repair : Action Unit
  unfolding cleanup_stale_default_routes_once cleanup_policy_rules_once
  stateless_repair = do
    link ← attempt (call o Call.find_link same)
    repair_stale_routes link
    _ ← attempt (cleanup_policy_rules_once o none)
    pure tt

  unfoldable pub repair_routing : RecoveryJournal → Action Unit
  unfolding journal_requires_exact_cleanup cleanup_exact_snapshot stateless_repair
  repair_routing j =
      if journal_requires_exact_cleanup j
      then (do _ ← attempt (cleanup_exact_snapshot o j.routes j.policy); pure tt)
      else stateless_repair

  unfoldable pub repair_journal : RecoveryJournal → Action Unit
  unfolding repair_routing clear_recovery_journal
  repair_journal j = do
    call o Call.open_netlink same
    repair_routing j
    cleanup_guard o j.kill_switch
    cleanup_dns_state o j.dns
    clear_recovery_journal o

  abbrev pub repair_loaded : Option RecoveryJournal → Action Unit
  unfolding repair_journal
  repair_loaded none = pure tt
  repair_loaded (some j) = repair_journal j

  unfoldable pub attempt_startup_repair : Action Unit
  unfolding load_recovery_journal repair_journal
  attempt_startup_repair = do journal ← load_recovery_journal; repair_loaded journal

-- A new process: nothing is left of the old one but the machine.
abbrev pub restart : Sys → Sys
restart s = record s {
  calls = 0;
  rules_cleanup = CleanupState.idle;
  routes_cleanup = CleanupState.idle;
}
