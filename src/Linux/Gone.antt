-- ===== src/Linux/Gone.antt =====
-- A cleanup that does not find the interface.
use r_wg.Base.{ℕ, suc, ◌≡◌, refl, Bool, true, false, Option, none, some}
use r_wg.Linux.{link_not_found, AppliedNetworkState, KillSwitchState}
use r_wg.Linux.Cleanup.{
  cleanup_with_netlink, clear_files, cleanup_network_config_impl, cleanup_network_config,
  merge_cleanup_results,
}
use r_wg.Linux.Machine.{Call, Reply, Oracle, Sys, Outcome, ◌>>=◌, attempt, call, after}
use r_wg.Linux.Undo.{cleanup_kill_switch, clear_recovery_journal, clear_persisted_apply_report}

abbrev pub is_find_link : Call → Bool
is_find_link Call.find_link = true
is_find_link _ = false

-- The interface is not found, and every other call is done.
pub record LinkGone (o : Oracle) : Type 0 where
  pub link : (n : ℕ) → o.reply Call.find_link n ≡ Reply.refused link_not_found
  pub other : (c : Call) (n : ℕ) → is_find_link c ≡ false → o.reply c n ≡ Reply.done

module _ (o : Oracle) (g : LinkGone o) where
  gone_lem :
      (k : Option KillSwitchState) (state : AppliedNetworkState) (s : Sys)
      → (((cleanup_network_config o (record state { kill_switch = k }) s).0 ≡ Outcome.done tt)
          × ((after (cleanup_network_config o (record state { kill_switch = k })) s).journal ≡ none)
          × ((after (cleanup_network_config o (record state { kill_switch = k })) s).rules
              ≡ s.machine.rules)
          × ((after (cleanup_network_config o (record state { kill_switch = k })) s).dns
              ≡ s.machine.dns))
  unfolding cleanup_network_config cleanup_network_config_impl cleanup_with_netlink clear_files
      cleanup_kill_switch clear_recovery_journal clear_persisted_apply_report merge_cleanup_results
      ◌>>=◌ attempt call
  gone_lem none state s =
      let n = s.calls in
      rw
        (
          after,
          g.other Call.open_netlink n refl,
          g.link (suc n),
          g.other Call.remove_journal (suc (suc n)) refl,
          g.other Call.remove_report (suc (suc (suc n))) refl,
        )
        (refl, refl, refl, refl)
  gone_lem (some k) state s =
      let n = s.calls in
      rw
        (
          after,
          g.other Call.open_netlink n refl,
          g.link (suc n),
          g.other Call.cleanup_kill_switch (suc (suc n)) refl,
          g.other Call.remove_journal (suc (suc (suc n))) refl,
          g.other Call.remove_report (suc (suc (suc (suc n)))) refl,
        )
        (refl, refl, refl, refl)

  -- When the interface is not found and every other call is done, a cleanup succeeds and removes the
  -- journal, while the policy rules and the resolver stay as they were.
  pub cleanup_network_config-LinkGone :
      (state : AppliedNetworkState) (s : Sys)
      → ((cleanup_network_config o state s).0 ≡ Outcome.done tt)
        × ((after (cleanup_network_config o state) s).journal ≡ none)
        × ((after (cleanup_network_config o state) s).rules ≡ s.machine.rules)
        × ((after (cleanup_network_config o state) s).dns ≡ s.machine.dns)
  cleanup_network_config-LinkGone state s = gone_lem state.kill_switch state s
