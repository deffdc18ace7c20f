-- ===== src/Tests/LinuxTests.antt =====
-- The network configuration of a full IPv4 tunnel, with calls that crash.
use mathlib.Core.List.{[], ◌∷◌}
use r_wg.Base.{ℕ, ◌≡◌, refl, Bool, true, false, Option, none, some, All, is_some}
use r_wg.Base.Result.{ok}
use r_wg.Config.{Text, WireGuardConfig}
use r_wg.Dns.{DnsSelection, DnsMode, DnsPreset}
use r_wg.Linux.{
  PolicyRoutingState, KillSwitchBackend, link_not_found, AppliedNetworkState, RecoveryPhase,
}
use r_wg.Linux.Apply.{apply_network_config}
use r_wg.Linux.Cleanup.{cleanup_network_config}
use r_wg.Linux.Crash.{
  apply_network_config-attempt_startup_repair, apply_kill_switch_stage-attempt_startup_repair,
}
use r_wg.Linux.Errors.{build_apply_plan-normalize_config_for_runtime}
use r_wg.Linux.Gone.{is_find_link, cleanup_network_config-LinkGone}
use r_wg.Linux.Journaled.{Repairable, Bare}
use r_wg.Linux.Machine.{Call, Reply, Oracle, CleanupState, Sys, Outcome, after}
use r_wg.Linux.Match.{
  rule_table_id, rule_fwmark, rule_suppress_prefix_len, is_exact_policy_rule,
  is_managed_policy_rule_signature, is_exact_policy_rule_lem, policy_rules,
  policy_rule_messages-policy_snapshot,
}
use r_wg.Linux.Plan.{LinuxApplyPlan, build_apply_plan}
use r_wg.Linux.Recovery.{attempt_startup_repair, restart}
use r_wg.Linux.Rules.{
  RuleMessage, fwmark_rule_message, base_policy_rule_message, set_rule_table_id,
  policy_rule_messages,
}
use r_wg.Linux.Safe.{apply_network_config-Repairable}
use r_wg.Linux.Snapshots.{policy_snapshot}
use r_wg.Linux.Stages.{apply_kill_switch_stage}
use r_wg.Net.{IpAddr, v4, v6}
use r_wg.Report.{RouteApplyKind, new_report}
use r_wg.Report.Ids.{route_item_id, policy_item_id, metric_item_id, bypass_item_id}
use r_wg.Report.Kinds.{Infers, infer_apply_kind-item_id}
use r_wg.RoutePlan.{
  RoutePlanPlatform, RoutePlanRouteOp, RoutePlanRouteKind, RoutePlanFamily, RoutePlanPolicyRuleOp,
  RoutePlanMetricOp, RoutePlanBypassOp,
}
use r_wg.RoutePlan.Normalize.{normalize_config_for_runtime}
use r_wg.RoutePlan.Planner.{build}

abbrev with_mark : Option ℕ → WireGuardConfig
with_mark mark = record {
  interface = record {
    private_key = [];
    listen_port = none;
    fwmark = mark;
    addresses = record { addr = v4 167772161; cidr = 24 } ∷ [];
    dns_servers = v4 16843009 ∷ [];
    dns_search = [];
    mtu = none;
    table = none;
  };
  peers =
      record {
        public_key = [];
        preshared_key = none;
        allowed_ips = record { addr = v4 0; cidr = 0 } ∷ record { addr = v6 1; cidr = 128 } ∷ [];
        endpoint = none;
        persistent_keepalive = none;
      }
      ∷ [];
}

abbrev no_ip : Text → Option IpAddr
no_ip host = none

abbrev show_any : IpAddr → Text
show_any a = 49 ∷ []

abbrev is_add_route : Call → Bool
is_add_route Call.add_route = true
is_add_route _ = false

abbrev reply_unless : Bool → Reply → Reply
reply_unless true r = r
reply_unless false r = Reply.done

-- Every call is done.
abbrev works : Oracle
works = record {
  reply = λ c n. Reply.done;
  backend = λ n. KillSwitchBackend.nftables;
  resolver = λ n. n;
}

-- The process crashes when it adds a route.
abbrev crashes : Oracle
crashes = record works { reply = λ c n. reply_unless (is_add_route c) Reply.crash }

-- The interface is not found.
abbrev gone : Oracle
gone = record works { reply = λ c n. reply_unless (is_find_link c) (Reply.refused link_not_found) }

gone_link : (n : ℕ) → gone.reply Call.find_link n ≡ Reply.refused link_not_found
gone_link n = refl

gone_other : (c : Call) (n : ℕ) → is_find_link c ≡ false → gone.reply c n ≡ Reply.done
gone_other c n e = rw e refl

abbrev fresh : Sys
fresh = record {
  machine = record {
    addresses = [];
    routes = [];
    rules = [];
    kill_switch = none;
    dns = none;
    journal = none;
    report_file = none;
  };
  report = new_report RoutePlanPlatform.linux;
  calls = 0;
  rules_cleanup = CleanupState.idle;
  routes_cleanup = CleanupState.idle;
}

abbrev full_policy : PolicyRoutingState
full_policy = record { table_id = 51820; fwmark = 7; v4 = true; v6 = false }

abbrev applied : AppliedNetworkState
applied = record {
  addresses = [];
  routes = [];
  table = none;
  dns = some 3;
  policy = some full_policy;
  kill_switch = none;
}

apply_network_config-Repairable_example : Repairable (
    after
      (apply_network_config crashes show_any
        (with_mark (some 7))
        (build no_ip RoutePlanPlatform.linux (with_mark (some 7)))
        true)
      fresh)
apply_network_config-Repairable_example =
    apply_network_config-Repairable no_ip show_any crashes (with_mark (some 7)) true fresh
      (refl, refl)

apply_network_config-attempt_startup_repair_example : Bare (
    after (attempt_startup_repair works) (
      restart
        (apply_network_config crashes show_any
          (with_mark (some 7))
          (build no_ip RoutePlanPlatform.linux (with_mark (some 7)))
          true
          fresh).1))
apply_network_config-attempt_startup_repair_example =
    apply_network_config-attempt_startup_repair no_ip show_any crashes works (with_mark (some 7))
      true fresh (λ c n. refl) (refl, refl)

apply_kill_switch_stage-attempt_startup_repair_example :
    is_some
      (after
        (attempt_startup_repair works)
        (restart (apply_kill_switch_stage works (some full_policy) true fresh).1)).kill_switch
    ≡ true
apply_kill_switch_stage-attempt_startup_repair_example =
    apply_kill_switch_stage-attempt_startup_repair works works full_policy fresh refl refl

-- With a policy rule, a resolver and a journal.
abbrev used : Sys
unfolding fwmark_rule_message base_policy_rule_message set_rule_table_id
used = record fresh {
  machine = record fresh.machine {
    rules = fwmark_rule_message RoutePlanFamily.ipv4 7 254 ∷ [];
    dns = some 5;
    journal = some (record {
      phase = RecoveryPhase.running;
      routes = [];
      policy = some (policy_snapshot full_policy);
      kill_switch = none;
      dns = some 5;
    });
  };
}

cleanup_network_config-LinkGone_example :
    ((cleanup_network_config gone applied used).0 ≡ Outcome.done tt)
    × ((after (cleanup_network_config gone applied) used).journal ≡ none)
    × ((after (cleanup_network_config gone applied) used).rules ≡ used.machine.rules)
    × ((after (cleanup_network_config gone applied) used).dns ≡ some 5)
unfolding used fwmark_rule_message base_policy_rule_message set_rule_table_id
cleanup_network_config-LinkGone_example =
    cleanup_network_config-LinkGone gone (record { link = gone_link; other = gone_other }) applied
      used

policy_rule_messages-policy_snapshot_example :
    (policy_rule_messages (policy_snapshot full_policy) ≡ policy_rules full_policy)
    × All (λ r. is_exact_policy_rule r full_policy ≡ true) (policy_rules full_policy)
policy_rule_messages-policy_snapshot_example = policy_rule_messages-policy_snapshot full_policy

abbrev own_rule : RuleMessage
unfolding fwmark_rule_message base_policy_rule_message set_rule_table_id
own_rule = fwmark_rule_message RoutePlanFamily.ipv4 7 254

own_rule_exact : is_exact_policy_rule own_rule full_policy ≡ true
unfolding is_exact_policy_rule fwmark_rule_message rule_table_id rule_fwmark
    rule_suppress_prefix_len
own_rule_exact = refl

is_exact_policy_rule_example :
    (is_managed_policy_rule_signature own_rule ≡ true)
    × ((mark : ℕ) → rule_fwmark own_rule ≡ some mark → mark ≡ 7)
is_exact_policy_rule_example = is_exact_policy_rule_lem own_rule full_policy own_rule_exact

abbrev auto_dns : DnsSelection
auto_dns = record {
  mode = DnsMode.auto_fill_missing_families;
  preset = DnsPreset.cloudflare_standard;
}

build_apply_plan-normalize_config_for_runtime_example :
    (p : LinuxApplyPlan) × (build_apply_plan
        (normalize_config_for_runtime (with_mark none) auto_dns)
        (build no_ip RoutePlanPlatform.linux
          (normalize_config_for_runtime (with_mark none) auto_dns))
        (new_report RoutePlanPlatform.linux)
      ≡ ok p)
build_apply_plan-normalize_config_for_runtime_example =
    build_apply_plan-normalize_config_for_runtime no_ip (with_mark none) auto_dns
      (new_report RoutePlanPlatform.linux)

abbrev one_route : RoutePlanRouteOp
one_route = record {
  route = record { addr = v4 0; cidr = 0 };
  table_id = none;
  kind = RoutePlanRouteKind.allowed;
}

abbrev rule_op : RoutePlanPolicyRuleOp
rule_op = record { family = RoutePlanFamily.ipv4; table_id = 200; fwmark = 7 }

abbrev metric_op : RoutePlanMetricOp
metric_op = record { family = RoutePlanFamily.ipv6; metric = 0 }

abbrev bypass_op : RoutePlanBypassOp
bypass_op = record { host = 104 ∷ []; port = 51820 }

infer_apply_kind-item_id_example :
    Infers (route_item_id show_any one_route) RouteApplyKind.route
    × Infers (policy_item_id rule_op) RouteApplyKind.policy_rule
    × Infers (metric_item_id metric_op) RouteApplyKind.metric
    × Infers (bypass_item_id no_ip bypass_op) RouteApplyKind.bypass_route
infer_apply_kind-item_id_example =
    infer_apply_kind-item_id show_any no_ip one_route rule_op metric_op bypass_op
