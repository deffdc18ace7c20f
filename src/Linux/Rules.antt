-- ===== src/Linux/Rules.antt =====
-- The policy rules: the messages of policy.rs and of recovery/netlink_match.rs, and the tests by
-- which policy.rs recognises its rules. Of the message of the netlink library, the model has what
-- the code writes and reads: a header starts as zeros, and of its flags only `Invert` is used.
use mathlib.Core.List.{List, [], ◌∷◌, ◌++◌}
use r_wg.Base.{ℕ, Bool, true, false, Option, none, some, if◌then◌else◌, ltb}
use r_wg.Linux.{RecoveryPolicySnapshot}
use r_wg.RoutePlan.{RoutePlanFamily}

pub data RuleAction : Type 0 where
  unspec to_table : RuleAction

pub data RuleAttribute : Type 0 where
  priority table fw_mark suppress_prefix_len : ℕ → RuleAttribute

pub record RuleMessage : Type 0 where
  pub family : RoutePlanFamily
  pub action : RuleAction
  pub header_table : ℕ
  pub invert : Bool
  pub attributes : List RuleAttribute

-- `RT_TABLE_MAIN`
abbrev pub rt_table_main : ℕ
rt_table_main = 254

abbrev pub rule_priority_fwmark : ℕ
rule_priority_fwmark = 10000

abbrev pub rule_priority_tunnel : ℕ
rule_priority_tunnel = 10001

abbrev pub rule_priority_suppress : ℕ
rule_priority_suppress = 10002

-- The constants of recovery/netlink_match.rs, which has its own.
abbrev pub recovery_priority_fwmark : ℕ
recovery_priority_fwmark = 10000

abbrev pub recovery_priority_tunnel : ℕ
recovery_priority_tunnel = 10001

abbrev pub recovery_priority_suppress : ℕ
recovery_priority_suppress = 10002

-- `RuleMessage::default()`, of a family
abbrev pub default_rule : RoutePlanFamily → RuleMessage
default_rule family = record {
  family = family;
  action = RuleAction.unspec;
  header_table = 0;
  invert = false;
  attributes = [];
}

abbrev pub push : RuleAttribute → RuleMessage → RuleMessage
push a r = record r { attributes = r.attributes ++ (a ∷ []) }

unfoldable pub set_rule_table_id : ℕ → RuleMessage → RuleMessage
set_rule_table_id table_id r =
    if ltb 255 table_id
    then record (push (RuleAttribute.table table_id) r) { header_table = rt_table_main }
    else record r { header_table = table_id }

unfoldable pub base_policy_rule_message : RoutePlanFamily → ℕ → ℕ → RuleMessage
unfolding set_rule_table_id
base_policy_rule_message family at table_id =
    push (RuleAttribute.priority at)
      (set_rule_table_id table_id (record (default_rule family) { action = RuleAction.to_table }))

unfoldable pub fwmark_rule_message : RoutePlanFamily → ℕ → ℕ → RuleMessage
unfolding base_policy_rule_message
fwmark_rule_message family fwmark table_id =
    push (RuleAttribute.fw_mark fwmark)
      (base_policy_rule_message family rule_priority_fwmark table_id)

unfoldable pub tunnel_rule_message : RoutePlanFamily → ℕ → ℕ → RuleMessage
unfolding base_policy_rule_message
tunnel_rule_message family fwmark table_id =
    record (push (RuleAttribute.fw_mark fwmark)
      (base_policy_rule_message family rule_priority_tunnel table_id)) { invert = true }

unfoldable pub suppress_rule_message : RoutePlanFamily → ℕ → RuleMessage
unfolding base_policy_rule_message
suppress_rule_message family table_id =
    push (RuleAttribute.suppress_prefix_len 0)
      (base_policy_rule_message family rule_priority_suppress table_id)

-- The three rules that `apply_policy_rules_family` adds, in its order.
unfoldable pub policy_rules_family : RoutePlanFamily → ℕ → ℕ → List RuleMessage
unfolding fwmark_rule_message tunnel_rule_message suppress_rule_message
policy_rules_family family fwmark table_id =
    fwmark_rule_message family fwmark rt_table_main
    ∷ tunnel_rule_message family fwmark table_id
    ∷ suppress_rule_message family rt_table_main
    ∷ []

-- recovery/netlink_match.rs: `push_policy_rule_messages`, in the order of its assignments.
abbrev pub recovery_fwmark_rule : RoutePlanFamily → ℕ → RuleMessage
recovery_fwmark_rule family fwmark = push (RuleAttribute.fw_mark fwmark) (
    push (RuleAttribute.priority recovery_priority_fwmark)
      (record (default_rule family) { action = RuleAction.to_table; header_table = rt_table_main }))

abbrev pub recovery_tunnel_table : ℕ → RuleMessage → RuleMessage
recovery_tunnel_table table_id r =
    if ltb 255 table_id
    then record (push (RuleAttribute.table table_id) r) { header_table = rt_table_main }
    else record r { header_table = table_id }

abbrev pub recovery_tunnel_rule : RoutePlanFamily → ℕ → ℕ → RuleMessage
recovery_tunnel_rule family fwmark table_id =
    record (push (RuleAttribute.fw_mark fwmark) (
      push (RuleAttribute.priority recovery_priority_tunnel) (
        recovery_tunnel_table table_id
          (record (default_rule family) { action = RuleAction.to_table })))) { invert = true }

abbrev pub recovery_suppress_rule : RoutePlanFamily → RuleMessage
recovery_suppress_rule family = push (RuleAttribute.suppress_prefix_len 0) (
    push (RuleAttribute.priority recovery_priority_suppress)
      (record (default_rule family) { action = RuleAction.to_table; header_table = rt_table_main }))

unfoldable pub push_policy_rule_messages :
    List RuleMessage → RoutePlanFamily → ℕ → ℕ → List RuleMessage
push_policy_rule_messages messages family fwmark table_id =
    messages
    ++ (recovery_fwmark_rule family fwmark
        ∷ recovery_tunnel_rule family fwmark table_id
        ∷ recovery_suppress_rule family
        ∷ [])

unfoldable pub policy_rule_messages : RecoveryPolicySnapshot → List RuleMessage
unfolding push_policy_rule_messages
policy_rule_messages p =
    let v4_messages =
      if p.v4 then push_policy_rule_messages [] RoutePlanFamily.ipv4 p.fwmark p.table_id else [] in
    if p.v6
    then push_policy_rule_messages v4_messages RoutePlanFamily.ipv6 p.fwmark p.table_id
    else v4_messages

-- `find_map` over the attributes.
abbrev pub find_priority : List RuleAttribute → Option ℕ
find_priority [] = none
find_priority (RuleAttribute.priority n ∷ rest) = some n
find_priority (RuleAttribute.table n ∷ rest) = find_priority rest
find_priority (RuleAttribute.fw_mark n ∷ rest) = find_priority rest
find_priority (RuleAttribute.suppress_prefix_len n ∷ rest) = find_priority rest

abbrev pub find_table : List RuleAttribute → Option ℕ
find_table [] = none
find_table (RuleAttribute.priority n ∷ rest) = find_table rest
find_table (RuleAttribute.table n ∷ rest) = some n
find_table (RuleAttribute.fw_mark n ∷ rest) = find_table rest
find_table (RuleAttribute.suppress_prefix_len n ∷ rest) = find_table rest

abbrev pub find_fw_mark : List RuleAttribute → Option ℕ
find_fw_mark [] = none
find_fw_mark (RuleAttribute.priority n ∷ rest) = find_fw_mark rest
find_fw_mark (RuleAttribute.table n ∷ rest) = find_fw_mark rest
find_fw_mark (RuleAttribute.fw_mark n ∷ rest) = some n
find_fw_mark (RuleAttribute.suppress_prefix_len n ∷ rest) = find_fw_mark rest

abbrev pub find_suppress : List RuleAttribute → Option ℕ
find_suppress [] = none
find_suppress (RuleAttribute.priority n ∷ rest) = find_suppress rest
find_suppress (RuleAttribute.table n ∷ rest) = find_suppress rest
find_suppress (RuleAttribute.fw_mark n ∷ rest) = find_suppress rest
find_suppress (RuleAttribute.suppress_prefix_len n ∷ rest) = some n
