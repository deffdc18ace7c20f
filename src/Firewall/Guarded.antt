-- ===== src/Firewall/Guarded.antt =====
-- What apply_kill_switch leaves of what was asked of the programs, whether it succeeds or not.
use mathlib.Core.List.{List, []}
use r_wg.Base.{ℕ, ◌≡◌, refl, subst, Bool, not, ◌&&◌, Option, none, some}
use r_wg.Base.Result.{Result, ok, err}
use r_wg.Config.{Text}
use r_wg.Firewall.{Program, Request, FirewallError, Entry, Oracle, nft_script}
use r_wg.Firewall.Commands.{
  cleanup_nftables, apply_nftables, state_of, iptables_applied, fall_back, nftables_applied,
  apply_kill_switch,
}
use r_wg.Firewall.Ends.{
  Ended, Ends, Ends-pure, Ends-fail, Ends-if, Ends-chain, Ends-attempt, Ends-weaken,
}
use r_wg.Firewall.Families.{asked_of, clean_step, Clean}
use r_wg.Firewall.Installs.{step_lem}
use r_wg.Linux.{KillSwitchBackend, KillSwitchState}
use r_wg.Firewall.Tables.{AllClean, FourClean, SixClean, Guards, Applied, iptables_lem}

module _ (o : Oracle) (tun_name : Text) (fwmark : ℕ) where
  abbrev Fallen : Bool → Bool → Result FirewallError Unit → List Entry → Type 0
  Fallen ipv4 ipv6 (ok a) = Guards tun_name fwmark ipv4 ipv6 KillSwitchBackend.iptables
  Fallen ipv4 ipv6 (err e) = AllClean

  applied_lem :
      (ipv4 ipv6 : Bool) (nft_error : Option FirewallError) (r : Result FirewallError Unit)
      → Ends
          (Fallen ipv4 ipv6 r)
          (iptables_applied (state_of KillSwitchBackend.iptables fwmark ipv4 ipv6) nft_error r)
          (Applied tun_name fwmark ipv4 ipv6)
          (λ _. AllClean)
  applied_lem ipv4 ipv6 nft_error (ok a) = Ends-pure (λ l i. (i, refl))
  applied_lem ipv4 ipv6 nft_error (err e) = Ends-fail (λ l i. i)

  fall_back_lem :
      (ipv4 ipv6 : Bool) (nft_error : Option FirewallError)
      → Ends AllClean
          (fall_back o tun_name fwmark ipv4 ipv6 nft_error)
          (Applied tun_name fwmark ipv4 ipv6)
          (λ _. AllClean)
  fall_back_lem ipv4 ipv6 nft_error =
      Ends-chain (Fallen ipv4 ipv6)
        (Ends-attempt (Fallen ipv4 ipv6) (iptables_lem o tun_name fwmark ipv4 ipv6))
        (applied_lem ipv4 ipv6 nft_error)

  abbrev pub TablesClean : List Entry → Type 0
  TablesClean l = FourClean l × SixClean l

  pub cleanup_nft_lem : Ends TablesClean (cleanup_nftables o) (λ _. AllClean) (λ _. AllClean)
  unfolding cleanup_nftables
  cleanup_nft_lem =
      Ends-weaken (λ l i. i) (λ a l i. (i.1, i.0.0, i.0.1)) (λ e l i. (i.1, i.0.0, i.0.1))
        (clean_step o Program.nft TablesClean (λ r a l i. i) Request.delete_table (λ l i. i) refl)

  nft_lem :
      (ipv4 ipv6 : Bool)
      → Ends AllClean
          (apply_nftables o tun_name fwmark ipv4 ipv6)
          (λ _. Guards tun_name fwmark ipv4 ipv6 KillSwitchBackend.nftables)
          (λ _. TablesClean)
  unfolding apply_nftables
  nft_lem ipv4 ipv6 =
      Ends-chain (λ _. AllClean)
        (Ends-attempt (λ _. AllClean)
          (Ends-weaken (λ l i. (i.1, i.2)) (λ a l i. i) (λ e l i. i) cleanup_nft_lem))
        (λ _.
          Ends-weaken (λ l i. ((i.1, i.2), (asked_of Program.nft l, (refl, i.0))))
            (λ a l i. (i.1, i.0.0, i.0.1)) (λ e l i. i)
            (step_lem o Program.nft TablesClean (λ r a l i. i) Clean []
              (Request.load_rules (nft_script tun_name fwmark ipv4 ipv6))))

  abbrev NftTried : Bool → Bool → Result FirewallError Unit → List Entry → Type 0
  NftTried ipv4 ipv6 (ok a) = Guards tun_name fwmark ipv4 ipv6 KillSwitchBackend.nftables
  NftTried ipv4 ipv6 (err e) = TablesClean

  nft_applied_lem :
      (ipv4 ipv6 : Bool) (r : Result FirewallError Unit)
      → Ends
          (NftTried ipv4 ipv6 r)
          (nftables_applied o tun_name fwmark ipv4 ipv6 r)
          (Applied tun_name fwmark ipv4 ipv6)
          (λ _. AllClean)
  nft_applied_lem ipv4 ipv6 (ok a) = Ends-pure (λ l i. (i, refl))
  nft_applied_lem ipv4 ipv6 (err e) =
      Ends-chain (λ _. AllClean) (Ends-attempt (λ _. AllClean) cleanup_nft_lem)
        (λ _. fall_back_lem ipv4 ipv6 (some e))

  pub kill_switch_lem :
      (ipv4 ipv6 : Bool)
      → Ends AllClean
          (apply_kill_switch o tun_name fwmark ipv4 ipv6)
          (Applied tun_name fwmark ipv4 ipv6)
          (λ _. AllClean)
  unfolding apply_kill_switch
  kill_switch_lem ipv4 ipv6 = Ends-if (not ipv4 && not ipv6) (Ends-fail (λ l i. i)) (
      Ends-if (o.resolve_command Program.nft)
        (Ends-chain (NftTried ipv4 ipv6) (Ends-attempt (NftTried ipv4 ipv6) (nft_lem ipv4 ipv6))
          (nft_applied_lem ipv4 ipv6))
        (fall_back_lem ipv4 ipv6 none))

module _ (o : Oracle) (tun_name : Text) (fwmark : ℕ) (ipv4 ipv6 : Bool) (l : List Entry) where
  -- When the last request to each program before, if there is one, belongs to a cleanup, and
  -- apply_kill_switch succeeds, whatever the programs answer, its state has the mark and the families
  -- of the arguments and one backend. With nftables, the last request to nft has loaded the script of
  -- the arguments. With iptables, the last six requests to the program of each enabled family have
  -- made the chain, let pass the loopback, the tunnel and the mark, refused the rest, and inserted the
  -- jump, in this order, and all were carried out. They come right after a cleanup: the jump deleted
  -- until there was none, or eight times, the chain flushed, and the chain deleted, where each request
  -- either was carried out or found nothing to remove, or the last of them was refused and no other
  -- came after it. The last request to every other program, if there is one, belongs to a cleanup,
  -- which that program may have refused.
  pub apply_kill_switch-Applied :
      (s : KillSwitchState)
      → AllClean l
      → (apply_kill_switch o tun_name fwmark ipv4 ipv6 l).0 ≡ ok s
      → Applied tun_name fwmark ipv4 ipv6 s (apply_kill_switch o tun_name fwmark ipv4 ipv6 l).1
  apply_kill_switch-Applied s c h =
      subst
        (λ r.
          Ended (Applied tun_name fwmark ipv4 ipv6) (λ _. AllClean) r
            (apply_kill_switch o tun_name fwmark ipv4 ipv6 l).1)
        h ((kill_switch_lem o tun_name fwmark ipv4 ipv6).ends l c)

  -- When the last request to each program before, if there is one, belongs to a cleanup, and
  -- apply_kill_switch fails, whatever the programs answer, the last request to each program, if there
  -- is one, belongs to a cleanup.
  pub apply_kill_switch-AllClean :
      (e : FirewallError)
      → AllClean l
      → (apply_kill_switch o tun_name fwmark ipv4 ipv6 l).0 ≡ err e
      → AllClean (apply_kill_switch o tun_name fwmark ipv4 ipv6 l).1
  apply_kill_switch-AllClean e c h =
      subst
        (λ r.
          Ended (Applied tun_name fwmark ipv4 ipv6) (λ _. AllClean) r
            (apply_kill_switch o tun_name fwmark ipv4 ipv6 l).1)
        h ((kill_switch_lem o tun_name fwmark ipv4 ipv6).ends l c)
