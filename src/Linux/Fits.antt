-- ===== src/Linux/Fits.antt =====
-- The plan of the apply that is made from a built route plan installs nothing that the journal of
-- the route plan does not name.
use mathlib.Core.List.{List, [], ◌∷◌, ◌++◌}
use r_wg.Base.{
  ℕ, ◌≡◌, refl, sym, ap, subst, Bool, true, false, not, ◌||◌, Option, none, some, any, All,
  any-append, if◌then◌else◌, arith, ==_refl,
}
use r_wg.Base.Result.{Result, ok, err, ok-injective}
use r_wg.Config.{Text, WireGuardConfig}
use r_wg.Linux.{PolicyRoutingState, RecoveryRouteSnapshot}
use r_wg.Linux.Covered.{FitsPlan}
use r_wg.Linux.Journaled.{Covers, InPolicy, RuleInPolicy}
use r_wg.Linux.Machine.{same_route, same_rule, same_attributes, same_action, same_flag, table_of}
use r_wg.Linux.Plan.{
  LinuxApplyPlan, NetworkApplyError, allowed_ops, with_fwmark, no_fwmark, resolve_policy_state,
  plan_with, build_apply_plan,
}
use r_wg.Linux.Rules.{RuleMessage, RuleAttribute, RuleAction, policy_rules_family}
use r_wg.Linux.Match.{policy_rules, policy_rule_messages-policy_snapshot}
use r_wg.Linux.Snapshots.{is_allowed, route_snapshot, route_snapshots, route_snapshots_from_ops}
use r_wg.Net.{IpAddr, v4, v6, ip_eq}
use r_wg.Report.{RouteApplyReport}
use r_wg.RoutePlan.{
  RoutePlanPlatform, RoutePlanFamily, RoutePlanRouteOp, RoutePlanRouteKind, RoutePlanPolicyRuleOp,
  FullTunnelStatus, any_family, table_is_off,
}
use r_wg.RoutePlan.Planner.{build, build_policy_rule_ops, rules, rules_for}
use r_wg.RoutePlan.Rules.{family_eq}

ip_eq_refl : (a : IpAddr) → ip_eq a a ≡ true
ip_eq_refl (v4 n) = ==_refl n
ip_eq_refl (v6 n) = ==_refl n

family_refl : (f : RoutePlanFamily) → family_eq f f ≡ true
family_refl RoutePlanFamily.ipv4 = refl
family_refl RoutePlanFamily.ipv6 = refl

action_refl : (a : RuleAction) → same_action a a ≡ true
action_refl RuleAction.unspec = refl
action_refl RuleAction.to_table = refl

flag_refl : (b : Bool) → same_flag b b ≡ true
flag_refl true = refl
flag_refl false = refl

same_route_refl : (r : RecoveryRouteSnapshot) → same_route r r ≡ true
same_route_refl r = ground (arith, ip_eq_refl r.addr, ==_refl r.cidr, ==_refl (table_of r.table_id))

same_attributes_refl : (all : List RuleAttribute) → same_attributes all all ≡ true
same_attributes_refl [] = refl
same_attributes_refl (RuleAttribute.priority n ∷ rest) = ground (arith, same_attributes_refl rest)
same_attributes_refl (RuleAttribute.table n ∷ rest) = ground (arith, same_attributes_refl rest)
same_attributes_refl (RuleAttribute.fw_mark n ∷ rest) = ground (arith, same_attributes_refl rest)
same_attributes_refl (RuleAttribute.suppress_prefix_len n ∷ rest) =
    ground (arith, same_attributes_refl rest)

rule_refl_lem :
    (f : RoutePlanFamily) (a : RuleAction) (t : ℕ) (i : Bool) (all : List RuleAttribute)
    → same_rule
        (record { family = f; action = a; header_table = t; invert = i; attributes = all })
        (record { family = f; action = a; header_table = t; invert = i; attributes = all })
      ≡ true
rule_refl_lem f a t i all =
    ground (arith, family_refl f, action_refl a, flag_refl i, ==_refl t, same_attributes_refl all)

same_rule_refl : (r : RuleMessage) → same_rule r r ≡ true
same_rule_refl r = rule_refl_lem r.family r.action r.header_table r.invert r.attributes

module _ {ℓ} {A : Type ℓ} (same : A → A → Bool) where
  Covers-cons : (x : A) (xs ys : List A) → Covers same xs ys → Covers same (x ∷ xs) ys
  Covers-cons x xs [] h = tt
  Covers-cons x xs (y ∷ ys) h = (ground (arith, h.0), Covers-cons x xs ys h.1)

  Covers-self : ((x : A) → same x x ≡ true) → (xs : List A) → Covers same xs xs
  Covers-self h [] = tt
  Covers-self h (x ∷ xs) = (rw (h x) refl, Covers-cons x xs xs (Covers-self h xs))

  Covers-right : (xs ys zs : List A) → Covers same ys zs → Covers same (xs ++ ys) zs
  Covers-right [] ys zs h = h
  Covers-right (x ∷ xs) ys zs h = Covers-cons x (xs ++ ys) zs (Covers-right xs ys zs h)

  any_left :
      (xs ys : List A) (y : A)
      → any (λ x. same x y) xs ≡ true
      → any (λ x. same x y) (xs ++ ys) ≡ true
  any_left xs ys y h = rw (any-append (λ x. same x y) xs ys) (rw h refl)

  Covers-left : (xs ys zs : List A) → Covers same xs zs → Covers same (xs ++ ys) zs
  Covers-left xs ys [] h = tt
  Covers-left xs ys (z ∷ zs) h = (any_left xs ys z h.0, Covers-left xs ys zs h.1)

-- The rules of a plan are among those of its policy.
in_policy_lem :
    (p : PolicyRoutingState) (family : RoutePlanFamily) (t m : ℕ)
    → Covers same_rule (policy_rules p) (policy_rules_family family p.fwmark p.table_id)
    → InPolicy p (record { family = family; table_id = t; fwmark = m })
in_policy_lem p family t m h =
    subst (λ rs. Covers same_rule rs (policy_rules_family family p.fwmark p.table_id))
      (sym (policy_rule_messages-policy_snapshot p).0) h

rules_lem :
    (b4 b6 : Bool) (t m : ℕ) (p : PolicyRoutingState)
    → p.v4 ≡ b4
    → p.v6 ≡ b6
    → All (InPolicy p) (rules (record { ipv4 = b4; ipv6 = b6 }) t m)
rules_lem true true t m p e f = (
  in_policy_lem p RoutePlanFamily.ipv4 t m
      (rw e (Covers-left same_rule _ _ _ (Covers-self same_rule same_rule_refl _))),
  (
    in_policy_lem p RoutePlanFamily.ipv6 t m
        (rw f (Covers-right same_rule _ _ _ (Covers-self same_rule same_rule_refl _))),
    tt,
  ),
)
rules_lem true false t m p e f = (
  in_policy_lem p RoutePlanFamily.ipv4 t m
      (rw e (Covers-left same_rule _ _ _ (Covers-self same_rule same_rule_refl _))),
  tt,
)
rules_lem false true t m p e f = (
  in_policy_lem p RoutePlanFamily.ipv6 t m
      (rw f (Covers-right same_rule _ _ _ (Covers-self same_rule same_rule_refl _))),
  tt,
)
rules_lem false false t m p e f = tt

or_true : (b : Bool) → (b || true) ≡ true
or_true true = refl
or_true false = refl

weaken_lem :
    (r : RecoveryRouteSnapshot) (rs : List RecoveryRouteSnapshot) (ops : List RoutePlanRouteOp)
    → All (λ op. any (λ x. same_route x (route_snapshot op)) rs ≡ true) ops
    → All (λ op. any (λ x. same_route x (route_snapshot op)) (r ∷ rs) ≡ true) ops
weaken_lem r rs [] h = tt
weaken_lem r rs (op ∷ ops) h =
    (rw h.0 (or_true (same_route r (route_snapshot op))), weaken_lem r rs ops h.1)

in_plan_step :
    (new : RoutePlanRouteOp) (kept : List RoutePlanRouteOp) (rs : List RecoveryRouteSnapshot)
    (b : Bool)
    → All (λ op. any (λ x. same_route x (route_snapshot op)) rs ≡ true) kept
    → All
        (λ op.
          any (λ x. same_route x (route_snapshot op)) (if b then route_snapshot new ∷ rs else rs)
          ≡ true)
        (if b then new ∷ kept else kept)
in_plan_step op kept rs true h =
    (rw (same_route_refl (route_snapshot op)) refl, weaken_lem (route_snapshot op) rs kept h)
in_plan_step op kept rs false h = h

-- The routes of the apply are among those of the plan.
in_plan_lem :
    (ops : List RoutePlanRouteOp)
    → All
        (λ op. any (λ x. same_route x (route_snapshot op)) (route_snapshots_from_ops ops) ≡ true)
        (allowed_ops ops)
unfolding route_snapshots_from_ops allowed_ops
in_plan_lem [] = tt
in_plan_lem (op ∷ ops) =
    in_plan_step op (allowed_ops ops) (route_snapshots_from_ops ops) (is_allowed op.kind)
      (in_plan_lem ops)

snapshots_step :
    (op : RoutePlanRouteOp) (k : RoutePlanRouteKind) (ops : List RoutePlanRouteOp)
    → route_snapshots_from_ops (allowed_ops ops) ≡ route_snapshots_from_ops ops
    → route_snapshots_from_ops (allowed_ops (record op { kind = k } ∷ ops))
      ≡ route_snapshots_from_ops (record op { kind = k } ∷ ops)
unfolding route_snapshots_from_ops allowed_ops
snapshots_step op RoutePlanRouteKind.allowed ops h = ap (λ rest. route_snapshot op ∷ rest) h
snapshots_step op RoutePlanRouteKind.dns_host ops h = h

snapshots_lem :
    (ops : List RoutePlanRouteOp)
    → route_snapshots_from_ops (allowed_ops ops) ≡ route_snapshots_from_ops ops
unfolding route_snapshots_from_ops allowed_ops
snapshots_lem [] = refl
snapshots_lem (op ∷ ops) = snapshots_step op op.kind ops (snapshots_lem ops)

no_policy_lem : (ops : List RoutePlanPolicyRuleOp) → All (RuleInPolicy none) ops
no_policy_lem [] = tt
no_policy_lem (op ∷ ops) = (tt, no_policy_lem ops)

rules_for_lem :
    (off : Bool) (full : FullTunnelStatus) (table mark : Option ℕ) (p : PolicyRoutingState)
    → p.v4 ≡ full.ipv4
    → p.v6 ≡ full.ipv6
    → All (InPolicy p) (if off then [] else rules_for full table mark)
rules_for_lem true full table mark p e f = tt
rules_for_lem false full none mark p e f = tt
rules_for_lem false full (some t) none p e f = tt
rules_for_lem false full (some t) (some m) p e f = rules_lem full.ipv4 full.ipv6 t m p e f

-- The families of a policy are those of the plan's full tunnel.
abbrev pub IsOfTunnel : FullTunnelStatus → Option PolicyRoutingState → Type 0
IsOfTunnel full none = Unit
IsOfTunnel full (some p) = (p.v4 ≡ full.ipv4) × (p.v6 ≡ full.ipv6)

with_fwmark_lem :
    (full : FullTunnelStatus) (t : ℕ) (r : RouteApplyReport) (mark : Option ℕ)
    (policy : Option PolicyRoutingState)
    → with_fwmark full t r mark ≡ ok policy
    → IsOfTunnel full policy
unfolding no_fwmark
with_fwmark_lem full t r none policy h = absurd (cc)
with_fwmark_lem full t r (some m) policy h = subst (IsOfTunnel full) (ok-injective h) (refl, refl)

resolve_lem :
    (skip : Bool) (full : FullTunnelStatus) (t : ℕ) (r : RouteApplyReport) (mark : Option ℕ)
    (policy : Option PolicyRoutingState)
    → (if skip then ok none else with_fwmark full t r mark) ≡ ok policy
    → IsOfTunnel full policy
unfolding no_fwmark
resolve_lem true full t r mark policy h = subst (IsOfTunnel full) (ok-injective h) tt
resolve_lem false full t r mark policy h = with_fwmark_lem full t r mark policy h

module _ (parse_ip : Text → Option IpAddr) (c : WireGuardConfig) where
  rules_fit_lem :
      (policy : Option PolicyRoutingState)
      → IsOfTunnel (build parse_ip RoutePlanPlatform.linux c).full_tunnel policy
      → All (RuleInPolicy policy) (build parse_ip RoutePlanPlatform.linux c).policy_rule_ops
  unfolding build build_policy_rule_ops
  rules_fit_lem none h = no_policy_lem _
  rules_fit_lem (some p) h = rules_for_lem (table_is_off c.interface.table) _ _ _ p h.0 h.1

  plan_with_lem :
      (res : Result NetworkApplyError (Option PolicyRoutingState)) (p : LinuxApplyPlan)
      → plan_with (build parse_ip RoutePlanPlatform.linux c) res ≡ ok p
      → ((policy : Option PolicyRoutingState)
          → res ≡ ok policy
          → IsOfTunnel (build parse_ip RoutePlanPlatform.linux c).full_tunnel policy)
      → FitsPlan (build parse_ip RoutePlanPlatform.linux c) p
  unfolding allowed_ops route_snapshots route_snapshots_from_ops
  plan_with_lem (err e) p h k = absurd (cc)
  plan_with_lem (ok policy) p h k =
      subst (FitsPlan (build parse_ip RoutePlanPlatform.linux c)) (ok-injective h) (record {
        routes = in_plan_lem (build parse_ip RoutePlanPlatform.linux c).route_ops;
        rules = rules_fit_lem policy (k policy refl);
        snapshots = snapshots_lem (build parse_ip RoutePlanPlatform.linux c).route_ops;
      })

  pub build_apply_plan-FitsPlan :
      (r : RouteApplyReport) (p : LinuxApplyPlan)
      → build_apply_plan c (build parse_ip RoutePlanPlatform.linux c) r ≡ ok p
      → FitsPlan (build parse_ip RoutePlanPlatform.linux c) p
  unfolding build_apply_plan resolve_policy_state
  build_apply_plan-FitsPlan r p h =
      plan_with_lem (resolve_policy_state c (build parse_ip RoutePlanPlatform.linux c) r) p h
        (λ policy e.
          resolve_lem
            (table_is_off c.interface.table
              || not (any_family (build parse_ip RoutePlanPlatform.linux c).full_tunnel))
            (build parse_ip RoutePlanPlatform.linux c).full_tunnel _ r c.interface.fwmark policy e)
