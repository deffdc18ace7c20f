-- ===== src/Tests/FirewallTests.antt =====
-- The kill switch with programs that answer as given.
use mathlib.Core.Path.{◌≡◌, refl}
use mathlib.Core.List.{[], ◌∷◌}
use r_wg.Base.{Bool, true, false, if◌then◌else◌}
use r_wg.Base.Result.{ok, err}
use r_wg.Base.Texts.{codes}
use r_wg.Config.{Text}
use r_wg.Firewall.{
  Program, Request, Answer, FirewallError, Oracle, is_missing_firewall_state, escape, nft_string,
}
use r_wg.Firewall.Commands.{
  ◌>>=◌, attempt, run_cmd, cleanup_nftables, apply_nftables, delete_jumps, cleanup_iptables_family,
  apply_iptables_family_inner, apply_iptables_family, apply_iptables, state_of, apply_kill_switch,
  cleanup_iptables, cleanup_kill_switch,
}
use r_wg.Firewall.Families.{is_cleanup}
use r_wg.Firewall.Guarded.{apply_kill_switch-Applied, apply_kill_switch-AllClean}
use r_wg.Firewall.Tables.{AllClean, Applied}
use r_wg.Firewall.Removed.{apply_kill_switch-cleanup_kill_switch}
use r_wg.Linux.{KillSwitchBackend, KillSwitchState}

-- nft is not installed.
abbrev without_nft : Program → Bool
without_nft Program.nft = false
without_nft Program.iptables = true
without_nft Program.ip6tables = true

abbrev no_chain : Answer
no_chain = Answer.exited (codes "iptables: No chain/target/match by that name.")

abbrev fresh_tables : Oracle
fresh_tables = record {
  resolve_command = without_nft;
  answer = λ l p r. if is_cleanup r then no_chain else Answer.succeeded;
}

abbrev refuses_jump : Program → Request → Answer
refuses_jump Program.ip6tables Request.insert_jump = Answer.exited (codes "Permission denied")
refuses_jump Program.nft r = no_chain
refuses_jump Program.iptables r = if is_cleanup r then no_chain else Answer.succeeded
refuses_jump Program.ip6tables Request.delete_table = no_chain
refuses_jump Program.ip6tables Request.delete_jump = no_chain
refuses_jump Program.ip6tables Request.flush_chain = no_chain
refuses_jump Program.ip6tables Request.delete_chain = no_chain
refuses_jump Program.ip6tables Request.new_chain = Answer.succeeded
refuses_jump Program.ip6tables (Request.load_rules s) = Answer.succeeded
refuses_jump Program.ip6tables (Request.append r) = Answer.succeeded

-- ip6tables does not insert the jump.
abbrev no_ipv6_jump : Oracle
no_ipv6_jump = record { resolve_command = without_nft; answer = λ l p r. refuses_jump p r }

abbrev tun : Text
tun = codes "wg0"

abbrev by_iptables : KillSwitchState
by_iptables = state_of KillSwitchBackend.iptables 21079 true true

fresh_applied : (apply_kill_switch fresh_tables tun 21079 true true []).0 ≡ ok by_iptables
unfolding apply_kill_switch apply_nftables apply_iptables apply_iptables_family
    apply_iptables_family_inner cleanup_iptables_family delete_jumps cleanup_nftables run_cmd
    attempt ◌>>=◌ is_missing_firewall_state
fresh_applied = refl

apply_kill_switch-Applied_example :
    Applied tun 21079 true true by_iptables
      (apply_kill_switch fresh_tables tun 21079 true true []).1
apply_kill_switch-Applied_example =
    apply_kill_switch-Applied fresh_tables tun 21079 true true [] by_iptables (tt, tt, tt)
      fresh_applied

jump_refused :
    (apply_kill_switch no_ipv6_jump tun 21079 true true []).0
    ≡ err (FirewallError.command_failed (codes "Permission denied"))
unfolding apply_kill_switch apply_nftables apply_iptables apply_iptables_family
    apply_iptables_family_inner cleanup_iptables_family delete_jumps cleanup_nftables run_cmd
    attempt ◌>>=◌ is_missing_firewall_state
jump_refused = refl

apply_kill_switch-AllClean_example :
    AllClean (apply_kill_switch no_ipv6_jump tun 21079 true true []).1
apply_kill_switch-AllClean_example =
    apply_kill_switch-AllClean no_ipv6_jump tun 21079 true true []
      (FirewallError.command_failed (codes "Permission denied")) (tt, tt, tt) jump_refused

both_done :
    ((apply_kill_switch fresh_tables tun 21079 true true >>= cleanup_kill_switch fresh_tables) []).0
    ≡ ok tt
unfolding apply_kill_switch apply_nftables apply_iptables apply_iptables_family
    apply_iptables_family_inner cleanup_iptables_family delete_jumps cleanup_nftables run_cmd
    attempt ◌>>=◌ is_missing_firewall_state cleanup_kill_switch cleanup_iptables
both_done = refl

apply_kill_switch-cleanup_kill_switch_example :
    AllClean
      ((apply_kill_switch fresh_tables tun 21079 true true >>= cleanup_kill_switch fresh_tables)
        []).1
apply_kill_switch-cleanup_kill_switch_example =
    apply_kill_switch-cleanup_kill_switch fresh_tables tun 21079 true true [] (tt, tt, tt) both_done

-- The escapes of the name, as the tests of the module have them.
escaped : nft_string (119 ∷ 103 ∷ 92 ∷ 34 ∷ 48 ∷ []) ≡ 119 ∷ 103 ∷ 92 ∷ 92 ∷ 92 ∷ 34 ∷ 48 ∷ []
unfolding nft_string escape
escaped = refl
