-- ===== src/Linux/Repair.antt =====
-- The repair at the start takes out what the journal names.
use mathlib.Core.List.{List, [], ◌∷◌}
use r_wg.Base.{
  ℕ, ◌≡◌, refl, subst, Bool, false, not, ◌||◌, Option, none, some, any, is_empty, is_some,
  Bool-cases, inl, inr,
}
use r_wg.Base.Result.{Result, ok, err}
use r_wg.Linux.{
  RecoveryRouteSnapshot, RecoveryPolicySnapshot, RecoveryJournal, KillSwitchState, NetworkError,
}
use r_wg.Linux.Cleanup.{cleanup_dns_state, cleanup_guard}
use r_wg.Linux.Ends.{Ends, Ends-chain, Ends-keeps, Ends-pure, Ends-before, Post-same}
use r_wg.Linux.Journaled.{Covers, Repairable, Bare, journal_routes, journal_rules, snapshot_rules}
use r_wg.Linux.Keeps.{
  Keeps, Keeps-pure, Keeps-chain, Keeps-then, Keeps-attempt, Keeps-call, Keeps-ask, All-remove,
}
use r_wg.Linux.Machine.{
  Machine, Call, Oracle, Sys, get_machine, call, after, same_route, same_rule, without_route,
  without_rule, remove,
}
use r_wg.Linux.Recovery.{
  journal_requires_exact_cleanup, load_recovery_journal, repair_stale_routes, stateless_repair,
  repair_routing, repair_journal, repair_loaded, attempt_startup_repair,
}
use r_wg.Linux.Rules.{RuleMessage, policy_rule_messages}
use r_wg.Linux.Shrinks.{
  ShrinksRouting, Keeps-cleanup_policy_rules_once, Keeps-cleanup_stale_default_routes_once,
}
use r_wg.Linux.Undo.{
  cleanup_route_snapshot, delete_rules, cleanup_policy_snapshot, cleanup_route_snapshots,
  cleanup_policy_snapshots, cleanup_exact_snapshot, clear_recovery_journal, cleanup_kill_switch,
  cleanup_dns, cleanup_stale_default_routes_once,
}
use r_wg.Linux.Works.{
  Works, Never, Covers-remove, Covers-empty, Ends-works, Ends-tried, Ends-if, Ends-got, Ends-ask,
}

-- Only the routes and the rules that are named are left.
abbrev pub Left : List RecoveryRouteSnapshot → List RuleMessage → Machine → Type 0
Left routes rules m = Covers same_route routes m.routes × Covers same_rule rules m.rules

module _ (o : Oracle) (w : Works o) where
  delete_route_lem :
      (R : Machine → Type 0) (r : RecoveryRouteSnapshot) (routes : List RecoveryRouteSnapshot)
      (rules : List RuleMessage)
      → Ends
          (Left (r ∷ routes) rules)
          (call o Call.delete_route (without_route r))
          (λ _. Left routes rules)
          R
  unfolding remove
  delete_route_lem R r routes rules =
      Ends-works o _ _ w (λ m h. (Covers-remove same_route r routes m.routes h.0, h.1))

  again_lem :
      (R : Machine → Type 0) (r : RecoveryRouteSnapshot) (routes : List RecoveryRouteSnapshot)
      (rules : List RuleMessage)
      → Ends
          (Left routes rules)
          (call o Call.delete_route (without_route r))
          (λ _. Left routes rules)
          R
  unfolding remove
  again_lem R r routes rules =
      Ends-works o _ _ w (λ m h. (All-remove _ same_route r m.routes h.0, h.1))

  cleanup_route_lem :
      (R : Machine → Type 0) (r : RecoveryRouteSnapshot) (routes : List RecoveryRouteSnapshot)
      (rules : List RuleMessage)
      → Ends (Left (r ∷ routes) rules) (cleanup_route_snapshot o r) (λ _. Left routes rules) R
  unfolding cleanup_route_snapshot
  cleanup_route_lem R r routes rules = Ends-tried (delete_route_lem Never r routes rules) (
      Ends-chain (Ends-ask o w R _) (λ _. Ends-chain (Ends-got R) (λ m.
        Ends-if (any (same_route r) m.routes)
          (Ends-tried (again_lem Never r routes rules) (Ends-pure (λ m h. h)))
          (Ends-pure (λ m h. h)))))

  delete_rule_lem :
      (R : Machine → Type 0) (r : RuleMessage) (rules : List RuleMessage)
      → Ends (Left [] (r ∷ rules)) (call o Call.delete_rule (without_rule r)) (λ _. Left [] rules) R
  unfolding remove
  delete_rule_lem R r rules =
      Ends-works o _ _ w (λ m h. (h.0, Covers-remove same_rule r rules m.rules h.1))

  routes_lem :
      (R : Machine → Type 0) (routes : List RecoveryRouteSnapshot) (rules : List RuleMessage)
      → Ends (Left routes rules) (cleanup_route_snapshots o routes) (λ _. Left [] rules) R
  unfolding cleanup_route_snapshots
  routes_lem R [] rules = Ends-pure (λ m h. h)
  routes_lem R (r ∷ routes) rules =
      Ends-tried (cleanup_route_lem Never r routes rules) (routes_lem R routes rules)

  rules_lem :
      (R : Machine → Type 0) (rules : List RuleMessage)
      → Ends (Left [] rules) (delete_rules o rules) (λ _. Left [] []) R
  unfolding delete_rules
  rules_lem R [] = Ends-pure (λ m h. h)
  rules_lem R (r ∷ rules) = Ends-tried (delete_rule_lem Never r rules) (rules_lem R rules)

  policy_lem :
      (R : Machine → Type 0) (p : Option RecoveryPolicySnapshot)
      → Ends (Left [] (snapshot_rules p)) (cleanup_policy_snapshots o p) (λ _. Left [] []) R
  unfolding cleanup_policy_snapshot
  policy_lem R none = Ends-pure (λ m h. h)
  policy_lem R (some p) =
      Ends-tried (rules_lem Never (policy_rule_messages p)) (Ends-pure (λ m h. h))

  exact_lem :
      (R : Machine → Type 0) (routes : List RecoveryRouteSnapshot)
      (p : Option RecoveryPolicySnapshot)
      → Ends
          (Left routes (snapshot_rules p))
          (cleanup_exact_snapshot o routes p)
          (λ _. Left [] [])
          R
  unfolding cleanup_exact_snapshot
  exact_lem R routes p = Ends-chain (routes_lem R routes (snapshot_rules p)) (λ _. policy_lem R p)

-- Nothing is left.
abbrev pub Clear : Machine → Type 0
Clear = Left [] []

Clear-Shrinks : ShrinksRouting Clear
unfolding remove
Clear-Shrinks = record {
  route = λ r m h. (All-remove _ same_route r m.routes h.0, h.1);
  rule = λ r m h. (h.0, All-remove _ same_rule r m.rules h.1);
}

Keeps-repair_stale_routes :
    (o : Oracle) (r : Result NetworkError Unit) → Keeps Clear (repair_stale_routes o r)
unfolding cleanup_stale_default_routes_once
Keeps-repair_stale_routes o (ok _) =
    Keeps-chain (Keeps-attempt (Keeps-cleanup_stale_default_routes_once Clear Clear-Shrinks o))
      (λ _. Keeps-pure)
Keeps-repair_stale_routes o (err e) = Keeps-pure

Keeps-stateless_repair : (o : Oracle) → Keeps Clear (stateless_repair o)
unfolding stateless_repair
Keeps-stateless_repair o = Keeps-chain (Keeps-attempt (Keeps-ask _ _)) (λ r.
    Keeps-then (Keeps-repair_stale_routes o r) (
      Keeps-chain (Keeps-attempt (Keeps-cleanup_policy_rules_once Clear Clear-Shrinks o none))
        (λ _. Keeps-pure)))

-- Without routes and a policy there is nothing to name.
stateless_lem :
    (routes : List RecoveryRouteSnapshot) (p : Option RecoveryPolicySnapshot) (k : Bool)
    → (not (is_empty routes) || is_some p || k) ≡ false
    → (m : Machine) → Left routes (snapshot_rules p) m
    → Clear m
stateless_lem [] none k e m h = h
stateless_lem [] (some p) k e m h = absurd (cc e)
stateless_lem (r ∷ rs) p k e m h = absurd (cc e)

Clear-Bare : (m : Machine) → Clear m → Bare m
Clear-Bare m h = (Covers-empty same_route m.routes h.0, Covers-empty same_rule m.rules h.1)

got_journal_lem :
    Ends Repairable get_machine
      (λ m n. (n.journal ≡ m.journal) × Left (journal_routes n.journal) (journal_rules n.journal) n)
      Clear
got_journal_lem = record { ends = λ s h. (refl, h) }

module _ (o : Oracle) (w : Works o) where
  repair_routing_lem :
      (j : RecoveryJournal)
      → Ends (Left j.routes (snapshot_rules j.policy)) (repair_routing o j) (λ _. Clear) Clear
  unfolding repair_routing journal_requires_exact_cleanup
  repair_routing_lem j = elim (Bool-cases (journal_requires_exact_cleanup j)) [
    | inl e ↦ rw e (Ends-tried (exact_lem o w Never j.routes j.policy) (Ends-pure (λ m h. h)))
    | inr e ↦ rw e (
        Ends-before (stateless_lem j.routes j.policy (is_some j.kill_switch) e)
          (Ends-keeps (Keeps-stateless_repair o) (λ m h. h)))
  ]

  guard_lem : (k : Option KillSwitchState) → Keeps Clear (cleanup_guard o k)
  unfolding cleanup_kill_switch
  guard_lem none = Keeps-pure
  guard_lem (some k) = Keeps-call _ _ _ (λ m h. h)

  dns_lem : (d : Option ℕ) → Keeps Clear (cleanup_dns_state o d)
  unfolding cleanup_dns
  dns_lem none = Keeps-pure
  dns_lem (some d) = Keeps-call _ _ _ (λ m h. h)

  repair_journal_lem :
      (j : RecoveryJournal)
      → Ends (Left j.routes (snapshot_rules j.policy)) (repair_journal o j) (λ _. Clear) Clear
  unfolding repair_journal clear_recovery_journal
  repair_journal_lem j = Ends-chain (Ends-ask o w Clear _) (λ _.
      Ends-chain (repair_routing_lem j) (λ _.
        Ends-keeps
          (Keeps-then (guard_lem j.kill_switch)
            (Keeps-then (dns_lem j.dns) (Keeps-call _ _ _ (λ m h. h))))
          (λ m h. h)))

  repair_loaded_lem :
      (j : Option RecoveryJournal)
      → Ends (Left (journal_routes j) (journal_rules j)) (repair_loaded o j) (λ _. Clear) Clear
  unfolding repair_journal
  repair_loaded_lem none = Ends-pure (λ m h. h)
  repair_loaded_lem (some j) = repair_journal_lem j

  load_lem :
      Ends Repairable
        (load_recovery_journal o)
        (λ j m. Left (journal_routes j) (journal_rules j) m)
        Clear
  unfolding load_recovery_journal
  load_lem = Ends-chain (Ends-ask o w Clear _) (λ _.
      Ends-chain got_journal_lem
        (λ m. Ends-pure (λ n h. subst (λ j. Left (journal_routes j) (journal_rules j) n) h.0 h.1)))

  repair_lem : Ends Repairable (attempt_startup_repair o) (λ _. Clear) Clear
  unfolding attempt_startup_repair
  repair_lem = Ends-chain load_lem repair_loaded_lem

  -- A repair whose calls are all done leaves no route and no policy rule on a machine whose journal
  -- names all of them.
  pub attempt_startup_repair-Bare :
      (s : Sys) → Repairable s.machine → Bare (after (attempt_startup_repair o) s)
  attempt_startup_repair-Bare s h = Clear-Bare (after (attempt_startup_repair o) s) (
      Post-same Clear (attempt_startup_repair o s).0 (after (attempt_startup_repair o) s)
        (repair_lem.ends s h))
