-- ===== src/Linux/Crash.antt =====
-- A process that crashes in an apply, and the repair at the next start.
use r_wg.Base.{ℕ, ◌≡◌, refl, Bool, true, Option, none, some, is_some}
use r_wg.Base.Result.{Result, ok, err}
use r_wg.Config.{Text, WireGuardConfig}
use r_wg.Linux.{NetworkError, RecoveryJournal, PolicyRoutingState, KillSwitchState}
use r_wg.Linux.Apply.{apply_network_config}
use r_wg.Linux.Cleanup.{cleanup_dns_state, cleanup_guard}
use r_wg.Linux.Ends.{Ends, Ends-chain, Ends-keeps, Ends-pure, Post-same}
use r_wg.Linux.Journaled.{Bare}
use r_wg.Linux.Keeps.{
  Keeps, Keeps-pure, Keeps-chain, Keeps-then, Keeps-attempt, Keeps-if, Keeps-call, Keeps-ask,
}
use r_wg.Linux.Machine.{
  Machine, Call, Reply, Oracle, Sys, ◌>>=◌, attempt, on_error, edit_report, get_machine, call,
  after, remove,
}
use r_wg.Linux.Recovery.{
  journal_requires_exact_cleanup, load_recovery_journal, repair_stale_routes, stateless_repair,
  repair_routing, repair_journal, repair_loaded, attempt_startup_repair, restart,
}
use r_wg.Linux.Repair.{attempt_startup_repair-Bare}
use r_wg.Linux.Safe.{apply_network_config-Repairable}
use r_wg.Linux.Shrinks.{
  ShrinksRouting, Keeps-cleanup_policy_rules_once, Keeps-cleanup_stale_default_routes_once,
  Keeps-cleanup_exact_snapshot,
}
use r_wg.Linux.Stages.{apply_kill_switch, apply_kill_switch_stage}
use r_wg.Linux.Undo.{
  cleanup_kill_switch, cleanup_dns, clear_recovery_journal, cleanup_stale_default_routes_once,
}
use r_wg.Linux.Works.{Works}
use r_wg.Net.{IpAddr}
use r_wg.RoutePlan.{RoutePlanPlatform}
use r_wg.RoutePlan.Planner.{build}

module _ (parse_ip : Text → Option IpAddr) (show_ip : IpAddr → Text) (o repair : Oracle)
    (c : WireGuardConfig) (enabled : Bool) where
  -- On a machine without routes and policy rules of the tunnel, an apply that ends in any way, a
  -- crash at any of its calls included, and then a restart with a repair whose calls are all done,
  -- leave no route and no policy rule.
  pub apply_network_config-attempt_startup_repair :
      (s : Sys)
      → Works repair
      → Bare s.machine
      → Bare (
          after (attempt_startup_repair repair) (
            restart
              (apply_network_config o show_ip c
                (build parse_ip RoutePlanPlatform.linux c)
                enabled
                s).1))
  apply_network_config-attempt_startup_repair s w h =
      attempt_startup_repair-Bare repair w _
        (apply_network_config-Repairable parse_ip show_ip o c enabled s h)

abbrev pub journal_kill_switch : Option RecoveryJournal → Option KillSwitchState
journal_kill_switch none = none
journal_kill_switch (some j) = j.kill_switch

-- A kill switch of which the journal does not know.
abbrev pub Unrecorded : Machine → Type 0
Unrecorded m = (is_some m.kill_switch ≡ true) × (journal_kill_switch m.journal ≡ none)

Unrecorded-Shrinks : ShrinksRouting Unrecorded
unfolding remove
Unrecorded-Shrinks = record { route = λ r m h. h; rule = λ r m h. h }

got_lem :
    Ends Unrecorded get_machine
      (λ m n. Unrecorded n × (journal_kill_switch m.journal ≡ none))
      Unrecorded
got_lem = record { ends = λ s h. (h, h.1) }

module _ (o : Oracle) where
  stale_lem : (r : Result NetworkError Unit) → Keeps Unrecorded (repair_stale_routes o r)
  unfolding cleanup_stale_default_routes_once
  stale_lem (ok _) =
      Keeps-chain
        (Keeps-attempt (Keeps-cleanup_stale_default_routes_once Unrecorded Unrecorded-Shrinks o))
        (λ _. Keeps-pure)
  stale_lem (err e) = Keeps-pure

  routing_lem : (j : RecoveryJournal) → Keeps Unrecorded (repair_routing o j)
  unfolding repair_routing stateless_repair
  routing_lem j =
      Keeps-if (journal_requires_exact_cleanup j)
        (Keeps-chain
          (Keeps-attempt
            (Keeps-cleanup_exact_snapshot Unrecorded Unrecorded-Shrinks o j.routes j.policy))
          (λ _. Keeps-pure))
        (Keeps-chain (Keeps-attempt (Keeps-ask _ _)) (λ r. Keeps-then (stale_lem r) (
          Keeps-chain
            (Keeps-attempt (Keeps-cleanup_policy_rules_once Unrecorded Unrecorded-Shrinks o none))
            (λ _. Keeps-pure))))

  no_guard_lem : (k : Option KillSwitchState) → k ≡ none → Keeps Unrecorded (cleanup_guard o k)
  unfolding cleanup_kill_switch
  no_guard_lem k e = rw e Keeps-pure

  dns_lem : (d : Option ℕ) → Keeps Unrecorded (cleanup_dns_state o d)
  unfolding cleanup_dns
  dns_lem none = Keeps-pure
  dns_lem (some d) = Keeps-call _ _ _ (λ m h. h)

  journal_lem : (j : RecoveryJournal) → j.kill_switch ≡ none → Keeps Unrecorded (repair_journal o j)
  unfolding repair_journal clear_recovery_journal
  journal_lem j e = Keeps-then (Keeps-ask _ _) (
      Keeps-then (routing_lem j) (
        Keeps-then (no_guard_lem j.kill_switch e)
          (Keeps-then (dns_lem j.dns) (Keeps-call _ _ _ (λ m h. (h.0, refl))))))

  loaded_lem :
      (j : Option RecoveryJournal)
      → journal_kill_switch j ≡ none
      → Keeps Unrecorded (repair_loaded o j)
  unfolding repair_journal
  loaded_lem none e = Keeps-pure
  loaded_lem (some j) e = journal_lem j e

  load_lem :
      Ends Unrecorded
        (load_recovery_journal o)
        (λ j m. Unrecorded m × (journal_kill_switch j ≡ none))
        Unrecorded
  unfolding load_recovery_journal
  load_lem =
      Ends-chain (Ends-keeps (Keeps-ask _ _) (λ m h. h))
        (λ _. Ends-chain got_lem (λ m. Ends-pure (λ n h. h)))

  loaded_ends :
      (j : Option RecoveryJournal)
      → Ends
          (λ m. Unrecorded m × (journal_kill_switch j ≡ none))
          (repair_loaded o j)
          (λ _. Unrecorded)
          Unrecorded
  loaded_ends j = record { ends = λ s h. (Ends-keeps (loaded_lem j h.1) (λ m u. u)).ends s h.0 }

  repair_ends : Ends Unrecorded (attempt_startup_repair o) (λ _. Unrecorded) Unrecorded
  unfolding attempt_startup_repair
  repair_ends = Ends-chain load_lem loaded_ends

-- The stage that has just been done, and the journal as it was.
stage_lem :
    (o : Oracle) (p : PolicyRoutingState) (s : Sys)
    → o.reply Call.apply_kill_switch s.calls ≡ Reply.done
    → journal_kill_switch s.machine.journal ≡ none
    → Unrecorded (after (apply_kill_switch_stage o (some p) true) s)
unfolding apply_kill_switch_stage apply_kill_switch on_error attempt edit_report call ◌>>=◌
stage_lem o p s e h = rw (e, after) (refl, h)

module _ (o repair : Oracle) (p : PolicyRoutingState) where
  -- The kill switch is applied before it is recorded: if the process dies right after the stage
  -- that applies it, with a journal that has no kill switch, the repair at the next start leaves
  -- the kill switch in place, whatever its calls return.
  pub apply_kill_switch_stage-attempt_startup_repair :
      (s : Sys)
      → o.reply Call.apply_kill_switch s.calls ≡ Reply.done
      → journal_kill_switch s.machine.journal ≡ none
      → is_some
          (after
            (attempt_startup_repair repair)
            (restart (apply_kill_switch_stage o (some p) true s).1)).kill_switch
        ≡ true
  apply_kill_switch_stage-attempt_startup_repair s e h =
      let t = restart (apply_kill_switch_stage o (some p) true s).1 in
      (Post-same Unrecorded (attempt_startup_repair repair t).0
        (after (attempt_startup_repair repair) t)
        ((repair_ends repair).ends t (stage_lem o p s e h))).0
