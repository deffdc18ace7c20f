-- ===== src/Linux/Match.antt =====
-- policy.rs: the tests by which the cleanups recognise the rules of the tunnel, and what they say
-- of the rules that an apply adds.
use mathlib.Core.List.{List, [], ◌++◌}
use r_wg.Base.{
  ℕ, ◌≡◌, refl, Bool, true, false, not, ◌&&◌, Option, none, some, if◌then◌else◌, ltb, ◌==◌, ==_refl,
  All, All-append, arith, Bool-cases, inl, inr,
}
use r_wg.Linux.{PolicyRoutingState}
use r_wg.Linux.Rules.{
  RuleAction, RuleMessage, rt_table_main, rule_priority_fwmark, rule_priority_tunnel,
  rule_priority_suppress, find_priority, find_table, find_fw_mark, find_suppress,
  policy_rules_family, fwmark_rule_message, tunnel_rule_message, suppress_rule_message,
  base_policy_rule_message, set_rule_table_id, policy_rule_messages, push_policy_rule_messages,
}
use r_wg.Linux.Snapshots.{policy_snapshot}
use r_wg.Report.{unwrap_or}
use r_wg.RoutePlan.{RoutePlanFamily}

unfoldable pub rule_priority : RuleMessage → Option ℕ
rule_priority r = find_priority r.attributes

unfoldable pub rule_table_id : RuleMessage → ℕ
rule_table_id r = unwrap_or (find_table r.attributes) r.header_table

unfoldable pub rule_fwmark : RuleMessage → Option ℕ
rule_fwmark r = find_fw_mark r.attributes

unfoldable pub rule_suppress_prefix_len : RuleMessage → Option ℕ
rule_suppress_prefix_len r = find_suppress r.attributes

abbrev pub is_to_table : RuleAction → Bool
is_to_table RuleAction.to_table = true
is_to_table RuleAction.unspec = false

-- `== Some(n)`
abbrev pub is_value : ℕ → Option ℕ → Bool
is_value n none = false
is_value n (some m) = m == n

abbrev pub is_none : Option ℕ → Bool
is_none none = true
is_none (some _) = false

abbrev pub is_suppress_rule : RuleMessage → Bool
unfolding rule_table_id rule_fwmark rule_suppress_prefix_len
is_suppress_rule r =
    is_to_table r.action
    && rule_table_id r == rt_table_main
    && is_none (rule_fwmark r)
    && not r.invert
    && is_value 0 (rule_suppress_prefix_len r)

abbrev pub exact_by_priority : RuleMessage → PolicyRoutingState → Option ℕ → Bool
unfolding rule_table_id rule_fwmark rule_suppress_prefix_len
exact_by_priority r policy none = false
exact_by_priority r policy (some p) =
    if p == rule_priority_fwmark
    then is_to_table r.action
      && rule_table_id r == rt_table_main
      && is_value policy.fwmark (rule_fwmark r)
      && not r.invert
      && is_none (rule_suppress_prefix_len r)
    else (if p == rule_priority_tunnel
        then is_to_table r.action
          && rule_table_id r == policy.table_id
          && is_value policy.fwmark (rule_fwmark r)
          && r.invert
          && is_none (rule_suppress_prefix_len r)
        else (if p == rule_priority_suppress then is_suppress_rule r else false))

unfoldable pub is_exact_policy_rule : RuleMessage → PolicyRoutingState → Bool
unfolding rule_priority
is_exact_policy_rule r policy = exact_by_priority r policy (rule_priority r)

abbrev pub managed_by_priority : RuleMessage → Option ℕ → Bool
unfolding rule_table_id rule_fwmark rule_suppress_prefix_len
managed_by_priority r none = false
managed_by_priority r (some p) =
    if p == rule_priority_fwmark
    then is_to_table r.action
      && rule_table_id r == rt_table_main
      && not (is_none (rule_fwmark r))
      && not r.invert
      && is_none (rule_suppress_prefix_len r)
    else (if p == rule_priority_tunnel
        then is_to_table r.action
          && not (is_none (rule_fwmark r))
          && r.invert
          && is_none (rule_suppress_prefix_len r)
        else (if p == rule_priority_suppress then is_suppress_rule r else false))

unfoldable pub is_managed_policy_rule_signature : RuleMessage → Bool
unfolding rule_priority
is_managed_policy_rule_signature r = managed_by_priority r (rule_priority r)

unfoldable pub is_policy_rule : RuleMessage → Option PolicyRoutingState → Bool
unfolding is_exact_policy_rule is_managed_policy_rule_signature
is_policy_rule r none = is_managed_policy_rule_signature r
is_policy_rule r (some policy) = is_exact_policy_rule r policy

-- A rule that the exact test of a policy recognises is recognised without the policy, and a rule
-- with another mark is not recognised by the exact test.
pub is_exact_policy_rule_lem :
    (r : RuleMessage) (policy : PolicyRoutingState)
    → is_exact_policy_rule r policy ≡ true
    → (is_managed_policy_rule_signature r ≡ true)
      × ((mark : ℕ) → rule_fwmark r ≡ some mark → mark ≡ policy.fwmark)
unfolding is_exact_policy_rule is_managed_policy_rule_signature rule_priority rule_table_id
    rule_fwmark rule_suppress_prefix_len
is_exact_policy_rule_lem r policy h = (ground arith, λ mark e. ground arith)

exact_family_lem :
    (family : RoutePlanFamily) (policy : PolicyRoutingState)
    → All
        (λ r. is_exact_policy_rule r policy ≡ true)
        (policy_rules_family family policy.fwmark policy.table_id)
unfolding is_exact_policy_rule rule_priority rule_table_id rule_fwmark rule_suppress_prefix_len
    policy_rules_family fwmark_rule_message tunnel_rule_message suppress_rule_message
    base_policy_rule_message set_rule_table_id
exact_family_lem family policy = elim (Bool-cases (ltb 255 policy.table_id)) [
  | inl e ↦ rw e (simp (==_refl) (refl, (refl, (refl, tt))))
  | inr e ↦ rw e (simp (==_refl) (refl, (refl, (refl, tt))))
]

-- The rules of a policy, as the apply adds them.
abbrev pub policy_rules : PolicyRoutingState → List RuleMessage
policy_rules p =
    (if p.v4 then policy_rules_family RoutePlanFamily.ipv4 p.fwmark p.table_id else [])
    ++ (if p.v6 then policy_rules_family RoutePlanFamily.ipv6 p.fwmark p.table_id else [])

exact_part_lem :
    (policy : PolicyRoutingState) (b : Bool) (family : RoutePlanFamily)
    → All
        (λ r. is_exact_policy_rule r policy ≡ true)
        (if b then policy_rules_family family policy.fwmark policy.table_id else [])
exact_part_lem policy true family = exact_family_lem family policy
exact_part_lem policy false family = tt

exact_rules_lem :
    (policy : PolicyRoutingState) (b4 b6 : Bool)
    → All
        (λ r. is_exact_policy_rule r policy ≡ true)
        ((if b4 then policy_rules_family RoutePlanFamily.ipv4 policy.fwmark policy.table_id else [])
          ++ (if b6
              then policy_rules_family RoutePlanFamily.ipv6 policy.fwmark policy.table_id
              else []))
exact_rules_lem policy b4 b6 =
    All-append _ _ _ (exact_part_lem policy b4 RoutePlanFamily.ipv4)
      (exact_part_lem policy b6 RoutePlanFamily.ipv6)

family_messages_lem :
    (family : RoutePlanFamily) (fwmark table_id : ℕ) (before : List RuleMessage)
    → push_policy_rule_messages before family fwmark table_id
      ≡ before ++ policy_rules_family family fwmark table_id
unfolding push_policy_rule_messages policy_rules_family fwmark_rule_message tunnel_rule_message
    suppress_rule_message base_policy_rule_message set_rule_table_id
family_messages_lem family fwmark table_id before = refl

messages_lem :
    (b4 b6 : Bool) (t m : ℕ)
    → policy_rule_messages (record { table_id = t; fwmark = m; v4 = b4; v6 = b6 })
      ≡ policy_rules (record { table_id = t; fwmark = m; v4 = b4; v6 = b6 })
unfolding policy_rule_messages policy_rules_family
messages_lem true true t m = simp (family_messages_lem)
messages_lem true false t m = simp (family_messages_lem)
messages_lem false true t m = simp (family_messages_lem)
messages_lem false false t m = refl

-- The rules that the recovery deletes for the snapshot of a policy are exactly the rules that an
-- apply adds for the policy, in the same order, and the exact test recognises each of them.
pub policy_rule_messages-policy_snapshot :
    (policy : PolicyRoutingState)
    → (policy_rule_messages (policy_snapshot policy) ≡ policy_rules policy)
      × All (λ r. is_exact_policy_rule r policy ≡ true) (policy_rules policy)
policy_rule_messages-policy_snapshot policy = (
  messages_lem policy.v4 policy.v6 policy.table_id policy.fwmark,
  exact_rules_lem policy policy.v4 policy.v6,
)
