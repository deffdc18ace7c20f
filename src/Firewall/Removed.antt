-- ===== src/Firewall/Removed.antt =====
-- The cleanup of a kill switch that was applied.
use mathlib.Core.List.{List}
use r_wg.Base.{ℕ, ◌≡◌, subst, sym, Bool, true, false}
use r_wg.Base.Result.{ok}
use r_wg.Config.{Text}
use r_wg.Firewall.{Program, Request, Answer, FirewallError, Entry, Oracle}
use r_wg.Firewall.Commands.{
  ◌>>=◌, apply_kill_switch, cleanup_family_if, cleanup_iptables, cleanup_backend,
  cleanup_kill_switch,
}
use r_wg.Firewall.Ends.{entry, Ended, Ends, Ends-pure, Ends-fail, Ends-if, Ends-chain, Ends-weaken}
use r_wg.Firewall.Families.{cleanup_lem}
use r_wg.Firewall.Guarded.{cleanup_nft_lem, kill_switch_lem}
use r_wg.Firewall.Tables.{AllClean, NftClean, FourClean, Family, Guards, Applied}
use r_wg.Linux.{KillSwitchBackend, KillSwitchState}

-- An error of a cleanup, of which nothing is said.
abbrev Failed : FirewallError → List Entry → Type 0
Failed e l = Unit

module _ (o : Oracle) (tun_name : Text) (fwmark : ℕ) where
  kept_lem :
      (ipv6 : Bool) (r : Request) (a : Answer) (l : List Entry)
      → NftClean l × Family ipv6 Program.ip6tables tun_name fwmark l
      → NftClean (entry Program.iptables r a l)
        × Family ipv6 Program.ip6tables tun_name fwmark (entry Program.iptables r a l)
  kept_lem true r a l i = i
  kept_lem false r a l i = i

  four_lem :
      (ipv4 ipv6 : Bool)
      → Ends
          (Guards tun_name fwmark ipv4 ipv6 KillSwitchBackend.iptables)
          (cleanup_family_if o Program.iptables ipv4)
          (λ _ l. NftClean l × FourClean l × Family ipv6 Program.ip6tables tun_name fwmark l)
          Failed
  four_lem false ipv6 = Ends-pure (λ l i. i)
  four_lem true ipv6 =
      Ends-if (o.resolve_command Program.iptables)
        (Ends-weaken (λ l i. (i.0, i.2)) (λ a l i. (i.0.0, i.1, i.0.1)) (λ e l i. tt)
          (cleanup_lem o Program.iptables
            (λ l. NftClean l × Family ipv6 Program.ip6tables tun_name fwmark l) (kept_lem ipv6)
            (λ l i. i)))
        (Ends-fail (λ l i. tt))

  six_lem :
      (ipv6 : Bool)
      → Ends
          (λ l. NftClean l × FourClean l × Family ipv6 Program.ip6tables tun_name fwmark l)
          (cleanup_family_if o Program.ip6tables ipv6)
          (λ _. AllClean)
          Failed
  six_lem false = Ends-pure (λ l i. i)
  six_lem true =
      Ends-if (o.resolve_command Program.ip6tables)
        (Ends-weaken (λ l i. (i.0, i.1)) (λ a l i. (i.0.0, i.0.1, i.1)) (λ e l i. tt)
          (cleanup_lem o Program.ip6tables (λ l. NftClean l × FourClean l) (λ r a l i. i)
            (λ l i. i)))
        (Ends-fail (λ l i. tt))

  backend_lem :
      (b : KillSwitchBackend) (ipv4 ipv6 : Bool)
      → Ends
          (Guards tun_name fwmark ipv4 ipv6 b)
          (cleanup_backend o b ipv4 ipv6)
          (λ _. AllClean)
          Failed
  unfolding cleanup_iptables
  backend_lem KillSwitchBackend.nftables ipv4 ipv6 =
      Ends-if (o.resolve_command Program.nft)
        (Ends-weaken (λ l i. (i.1, i.2)) (λ a l i. i) (λ e l i. tt)
          (cleanup_nft_lem o tun_name fwmark))
        (Ends-fail (λ l i. tt))
  backend_lem KillSwitchBackend.iptables ipv4 ipv6 =
      Ends-chain _ (four_lem ipv4 ipv6) (λ _. six_lem ipv6)

  removed_lem :
      (ipv4 ipv6 : Bool) (s : KillSwitchState)
      → Ends (Applied tun_name fwmark ipv4 ipv6 s) (cleanup_kill_switch o s) (λ _. AllClean) Failed
  unfolding cleanup_kill_switch
  removed_lem ipv4 ipv6 s = record {
    ends = λ l i.
        subst
          (λ t.
            Ended (λ _. AllClean) Failed (cleanup_backend o s.backend t.ipv4 t.ipv6 l).0
              (cleanup_backend o s.backend t.ipv4 t.ipv6 l).1)
          (sym i.1) ((backend_lem s.backend ipv4 ipv6).ends l i.0);
  }

  -- When the last request to each program before, if there is one, belongs to a cleanup, and
  -- apply_kill_switch followed by the cleanup of its state succeeds, whatever the programs answer, the
  -- last request to each program, if there is one, belongs to a cleanup.
  pub apply_kill_switch-cleanup_kill_switch :
      (ipv4 ipv6 : Bool) (l : List Entry)
      → AllClean l
      → let both = apply_kill_switch o tun_name fwmark ipv4 ipv6 >>= cleanup_kill_switch o in
        (both l).0 ≡ ok tt → AllClean (both l).1
  apply_kill_switch-cleanup_kill_switch ipv4 ipv6 l c h =
      let both = apply_kill_switch o tun_name fwmark ipv4 ipv6 >>= cleanup_kill_switch o in
      let whole : Ends AllClean both (λ _. AllClean) Failed =
        Ends-chain (Applied tun_name fwmark ipv4 ipv6)
          (Ends-weaken (λ l i. i) (λ a l i. i) (λ e l i. tt)
            (kill_switch_lem o tun_name fwmark ipv4 ipv6))
          (removed_lem ipv4 ipv6) in
      subst (λ r. Ended (λ _. AllClean) Failed r (both l).1) h (whole.ends l c)
