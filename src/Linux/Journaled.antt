-- ===== src/Linux/Journaled.antt =====
-- The journal of an apply covers what the apply installs.
use mathlib.Core.List.{List, [], ◌∷◌}
use r_wg.Base.{
  ℕ, ◌≡◌, refl, sym, subst, Bool, true, false, ◌&&◌, Option, none, some, any, All, All-append,
  is_empty,
}
use r_wg.Base.Result.{Result, ok, err}
use r_wg.Config.{InterfaceConfig, InterfaceAddress}
use r_wg.Linux.{
  NetworkError, RecoveryRouteSnapshot, RecoveryPolicySnapshot, RecoveryJournal, PolicyRoutingState,
  KillSwitchState, AppliedNetworkState,
}
use r_wg.Linux.Apply.{abort_apply, kept_or_abort, or_abort, record_kill_switch, finish}
use r_wg.Linux.Keeps.{
  Keeps, Keeps-pure, Keeps-fail, Keeps-chain, Keeps-then, Keeps-attempt, Keeps-on_error, Keeps-if,
  Keeps-call, Keeps-ask, Keeps-get_sys, Keeps-edit_report, All-remove,
}
use r_wg.Linux.Machine.{Machine, Oracle, Action, same_route, same_rule, remove}
use r_wg.Linux.Plan.{LinuxApplyPlan}
use r_wg.Linux.Rules.{RuleMessage, policy_rule_messages, policy_rules_family}
use r_wg.Linux.Shrinks.{Shrinks, Keeps-cleanup_network_config_impl}
use r_wg.Linux.Snapshots.{
  route_snapshot, route_snapshots, route_snapshots_from_ops, policy_snapshot,
}
use r_wg.Linux.Stages.{
  snapshot_of, journal_failed, write_persisted_apply_report, write_applying_journal,
  write_running_journal, persist_applying_recovery_state, persist_running_recovery_state,
  add_addresses, set_mtu, configure_link, add_rules, kill_switch_failed, apply_kill_switch,
  apply_kill_switch_stage, apply_dns, dns_failed, dns_result, apply_dns_stage,
}
use r_wg.Report.{push_applied_kind}
use r_wg.RoutePlan.{RoutePlanRouteOp, RoutePlanPolicyRuleOp, Plan}

-- Each of the second list is the same as one of the first.
abbrev pub Covers {ℓ} : {A : Type ℓ} → (A → A → Bool) → List A → List A → Type 0
Covers same xs ys = All (λ y. any (λ x. same x y) xs ≡ true) ys

abbrev pub journal_routes : Option RecoveryJournal → List RecoveryRouteSnapshot
journal_routes none = []
journal_routes (some j) = j.routes

abbrev pub snapshot_rules : Option RecoveryPolicySnapshot → List RuleMessage
snapshot_rules none = []
snapshot_rules (some p) = policy_rule_messages p

abbrev pub journal_rules : Option RecoveryJournal → List RuleMessage
journal_rules none = []
journal_rules (some j) = snapshot_rules j.policy

-- The journal names every route and every rule of the machine.
abbrev pub Repairable : Machine → Type 0
Repairable m =
    Covers same_route (journal_routes m.journal) m.routes
    × Covers same_rule (journal_rules m.journal) m.rules

-- Nothing is installed.
abbrev pub Bare : Machine → Type 0
Bare m = (m.routes ≡ []) × (m.rules ≡ [])

pub Bare-Repairable : (m : Machine) → Bare m → Repairable m
Bare-Repairable m h = rw h.0 (rw h.1 (tt, tt))

-- The journal is that of the plan, and nothing is installed that the plan does not have.
abbrev pub Journaled : Plan → Option PolicyRoutingState → Machine → Type 0
Journaled plan policy m =
    (journal_routes m.journal ≡ route_snapshots plan)
    × (journal_rules m.journal ≡ snapshot_rules (snapshot_of policy))
    × Covers same_route (route_snapshots plan) m.routes
    × Covers same_rule (snapshot_rules (snapshot_of policy)) m.rules

pub Journaled-Repairable :
    (plan : Plan) (policy : Option PolicyRoutingState) (m : Machine)
    → Journaled plan policy m
    → Repairable m
Journaled-Repairable plan policy m h = (
  subst (λ rs. Covers same_route rs m.routes) (sym h.0) h.2,
  subst (λ rs. Covers same_rule rs m.rules) (sym h.1) h.3,
)

-- The rules of the operation's family are among those of the policy, and the route among the plan's.
abbrev pub InPolicy : PolicyRoutingState → RoutePlanPolicyRuleOp → Type 0
InPolicy p op =
    Covers same_rule (policy_rule_messages (policy_snapshot p))
      (policy_rules_family op.family p.fwmark p.table_id)

abbrev pub RuleInPolicy : Option PolicyRoutingState → RoutePlanPolicyRuleOp → Type 0
RuleInPolicy none op = Unit
RuleInPolicy (some p) op = InPolicy p op

abbrev pub InPlan : Plan → RoutePlanRouteOp → Type 0
InPlan plan op = any (λ x. same_route x (route_snapshot op)) (route_snapshots plan) ≡ true

module _ (plan : Plan) (policy : Option PolicyRoutingState) where
  pub Journaled-Shrinks : Shrinks (Journaled plan policy)
  unfolding remove
  Journaled-Shrinks = record {
    routing = record {
      route = λ r m h. (h.0, h.1, All-remove _ same_route r m.routes h.2, h.3);
      rule = λ r m h. (h.0, h.1, h.2, All-remove _ same_rule r m.rules h.3);
    };
    address = λ a m h. h;
    guard = λ m h. h;
    resolver = λ m h. h;
  }

module _ (o : Oracle) (plan : Plan) (policy : Option PolicyRoutingState) where
  pub Keeps-write_report : Keeps (Journaled plan policy) (write_persisted_apply_report o)
  unfolding write_persisted_apply_report
  Keeps-write_report = Keeps-chain Keeps-get_sys (λ s. Keeps-call _ _ _ (λ m h. h))

  pub Keeps-persist_applying :
      (k : Option KillSwitchState)
      → Keeps (Journaled plan policy) (persist_applying_recovery_state o plan policy k)
  unfolding persist_applying_recovery_state write_applying_journal
  Keeps-persist_applying k =
      Keeps-then Keeps-write_report (Keeps-call _ _ _ (λ m h. (refl, refl, h.2, h.3)))

  Keeps-persist_running :
      (ops : List RoutePlanRouteOp) (k : Option KillSwitchState) (d : Option ℕ)
      → route_snapshots_from_ops ops ≡ route_snapshots plan
      → Keeps (Journaled plan policy) (persist_running_recovery_state o ops policy k d)
  unfolding persist_running_recovery_state write_running_journal
  Keeps-persist_running ops k d e =
      Keeps-then Keeps-write_report (Keeps-call _ _ _ (λ m h. (e, refl, h.2, h.3)))

  persist_with_lem :
      (p : Option PolicyRoutingState) (k : Option KillSwitchState)
      → p ≡ policy
      → Keeps (Journaled plan policy) (persist_applying_recovery_state o plan p k)
  persist_with_lem p k e = rw e (Keeps-persist_applying k)

  kept_or_abort_lem :
      {A : Type 0} (state : AppliedNetworkState)
      → state.policy ≡ policy
      → (r : Result NetworkError A) → Keeps (Journaled plan policy) (kept_or_abort o plan state r)
  unfolding abort_apply
  kept_or_abort_lem state e (ok a) = Keeps-pure
  kept_or_abort_lem state e (err x) =
      Keeps-chain (Keeps-attempt (persist_with_lem state.policy state.kill_switch e)) (λ _.
        Keeps-chain
          (Keeps-attempt (
            Keeps-cleanup_network_config_impl (Journaled plan policy)
              (Journaled-Shrinks plan policy) o state))
          (λ _. Keeps-fail))

  -- A step of which the failure is undone, in a state with the policy.
  pub Keeps-or_abort :
      {A : Type 0} (state : AppliedNetworkState) {step : Action A}
      → state.policy ≡ policy
      → Keeps (Journaled plan policy) step
      → Keeps (Journaled plan policy) (or_abort o plan state step)
  unfolding or_abort abort_apply
  Keeps-or_abort {A} state e h = Keeps-chain (Keeps-attempt h) (kept_or_abort_lem state e)

  Keeps-add_addresses :
      (all : List InterfaceAddress) → Keeps (Journaled plan policy) (add_addresses o all)
  unfolding add_addresses
  Keeps-add_addresses [] = Keeps-pure
  Keeps-add_addresses (a ∷ rest) =
      Keeps-then (Keeps-call _ _ _ (λ m h. h)) (Keeps-add_addresses rest)

  Keeps-set_mtu : (mtu : Option ℕ) → Keeps (Journaled plan policy) (set_mtu o mtu)
  Keeps-set_mtu none = Keeps-pure
  Keeps-set_mtu (some _) = Keeps-ask _ _

  pub Keeps-configure_link :
      (i : InterfaceConfig) → Keeps (Journaled plan policy) (configure_link o i)
  unfolding configure_link
  Keeps-configure_link i =
      Keeps-then (Keeps-set_mtu i.mtu)
        (Keeps-then (Keeps-ask _ _) (Keeps-add_addresses i.addresses))

  pub Keeps-add_rules :
      (rs : List RuleMessage)
      → Covers same_rule (snapshot_rules (snapshot_of policy)) rs
      → Keeps (Journaled plan policy) (add_rules o rs)
  unfolding add_rules
  Keeps-add_rules [] c = Keeps-pure
  Keeps-add_rules (r ∷ rs) c =
      Keeps-then
        (Keeps-call _ _ _ (λ m h. (h.0, h.1, h.2, All-append _ m.rules (r ∷ []) h.3 (c.0, tt))))
        (Keeps-add_rules rs c.1)

  pub Keeps-kill_switch_stage :
      (p : Option PolicyRoutingState) (enabled : Bool)
      → Keeps (Journaled plan policy) (apply_kill_switch_stage o p enabled)
  unfolding apply_kill_switch_stage apply_kill_switch
  Keeps-kill_switch_stage none enabled = Keeps-pure
  Keeps-kill_switch_stage (some p) false = Keeps-then (Keeps-edit_report _) Keeps-pure
  Keeps-kill_switch_stage (some p) true =
      Keeps-chain
        (Keeps-on_error (kill_switch_failed p)
          (Keeps-chain Keeps-get_sys (λ s. Keeps-then (Keeps-call _ _ _ (λ m h. h)) Keeps-pure)))
        (λ k. Keeps-then (Keeps-edit_report _) Keeps-pure)

  Keeps-dns_result : (r : Result NetworkError ℕ) → Keeps (Journaled plan policy) (dns_result o r)
  unfolding dns_failed push_applied_kind
  Keeps-dns_result (ok d) = Keeps-then (Keeps-edit_report _) Keeps-pure
  Keeps-dns_result (err e) = Keeps-then (Keeps-edit_report _) Keeps-fail

  pub Keeps-dns_stage : (i : InterfaceConfig) → Keeps (Journaled plan policy) (apply_dns_stage o i)
  unfolding apply_dns_stage apply_dns
  Keeps-dns_stage i = Keeps-if (is_empty i.dns_servers && is_empty i.dns_search) Keeps-pure (
      Keeps-chain
        (Keeps-attempt
          (Keeps-chain Keeps-get_sys (λ s. Keeps-then (Keeps-call _ _ _ (λ m h. h)) Keeps-pure)))
        Keeps-dns_result)

  pub Keeps-record_kill_switch :
      (state : AppliedNetworkState) (k : Option KillSwitchState)
      → state.policy ≡ policy
      → Keeps (Journaled plan policy) (record_kill_switch o plan state k)
  unfolding record_kill_switch
  Keeps-record_kill_switch state none e = Keeps-pure
  Keeps-record_kill_switch state (some k) e =
      Keeps-or_abort (record state { kill_switch = some k }) e
        (Keeps-on_error journal_failed (persist_with_lem state.policy (some k) e))

  pub Keeps-finish :
      (p : LinuxApplyPlan) (state : AppliedNetworkState)
      → state.policy ≡ policy
      → route_snapshots_from_ops p.route_ops ≡ route_snapshots plan
      → Keeps (Journaled plan policy) (finish o plan p state)
  unfolding finish
  Keeps-finish p state e k = Keeps-then (Keeps-edit_report _) (
      Keeps-then
        (Keeps-or_abort state e (
          Keeps-on_error journal_failed
            (rw e (Keeps-persist_running p.route_ops state.kill_switch state.dns k))))
        Keeps-pure)
