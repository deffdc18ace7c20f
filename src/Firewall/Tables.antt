-- ===== src/Firewall/Tables.antt =====
-- What apply_iptables leaves of what was asked of the programs.
use mathlib.Core.List.{List, []}
use r_wg.Base.{ℕ, ◌≡◌, Bool, true, false}
use r_wg.Base.Result.{Result, ok, err}
use r_wg.Config.{Text}
use r_wg.Firewall.{Program, Request, Answer, FirewallError, Entry, Oracle, nft_script}
use r_wg.Firewall.Commands.{
  apply_iptables_family, or_cleanup, apply_ipv4, cleanup_ipv4_if, apply_ipv6, apply_iptables,
  state_of,
}
use r_wg.Firewall.Ends.{
  entry, Ends, Ends-pure, Ends-fail, Ends-if, Ends-chain, Ends-attempt, Ends-weaken,
}
use r_wg.Firewall.Families.{asked_of, Clean, installed, cleanup_lem, Over}
use r_wg.Firewall.Installs.{apply_lem}
use r_wg.Firewall.Sweeps.{Swept}
use r_wg.Linux.{KillSwitchBackend, KillSwitchState}

-- The last request to each program, if there is one, belongs to a cleanup.
abbrev pub AllClean : List Entry → Type 0
AllClean l =
    Clean (asked_of Program.nft l)
    × Clean (asked_of Program.iptables l)
    × Clean (asked_of Program.ip6tables l)

abbrev pub NftClean : List Entry → Type 0
NftClean l = Clean (asked_of Program.nft l)

abbrev pub FourClean : List Entry → Type 0
FourClean l = Clean (asked_of Program.iptables l)

abbrev pub SixClean : List Entry → Type 0
SixClean l = Clean (asked_of Program.ip6tables l)

-- The last requests for an enabled family are those of its chain, after a cleanup that was whole or
-- refused, and the last one for another, if there is one, belongs to a cleanup.
abbrev pub Family : Bool → Program → Text → ℕ → List Entry → Type 0
Family true p tun_name fwmark l = Over (Swept p) (installed p tun_name fwmark) (asked_of p l)
Family false p tun_name fwmark l = Clean (asked_of p l)

-- The last requests to the programs of the state's backend are those of its rules, and the last one
-- to another program, if there is one, belongs to a cleanup.
abbrev pub Guards : Text → ℕ → Bool → Bool → KillSwitchBackend → List Entry → Type 0
Guards tun_name fwmark ipv4 ipv6 KillSwitchBackend.nftables l =
    Over Clean
      (entry Program.nft (Request.load_rules (nft_script tun_name fwmark ipv4 ipv6))
        Answer.succeeded [])
      (asked_of Program.nft l)
    × FourClean l
    × SixClean l
Guards tun_name fwmark ipv4 ipv6 KillSwitchBackend.iptables l =
    NftClean l
    × Family ipv4 Program.iptables tun_name fwmark l
    × Family ipv6 Program.ip6tables tun_name fwmark l

-- The state has the mark and the families that were asked for. The name of the interface, which a
-- state here leaves out, is in the requests.
abbrev pub Applied : Text → ℕ → Bool → Bool → KillSwitchState → List Entry → Type 0
Applied tun_name fwmark ipv4 ipv6 s l =
    Guards tun_name fwmark ipv4 ipv6 s.backend l × (s ≡ state_of s.backend fwmark ipv4 ipv6)

module _ (o : Oracle) (tun_name : Text) (fwmark : ℕ) where
  abbrev Four : Bool → List Entry → Type 0
  Four ipv4 l = NftClean l × Family ipv4 Program.iptables tun_name fwmark l × SixClean l

  ipv4_lem :
      (ipv4 : Bool)
      → Ends AllClean (apply_ipv4 o tun_name fwmark ipv4) (λ _. Four ipv4) (λ _. AllClean)
  ipv4_lem false = Ends-pure (λ l i. i)
  ipv4_lem true =
      Ends-if (o.resolve_command Program.iptables)
        (Ends-weaken (λ l i. (i.0, i.2)) (λ a l i. (i.0.0, i.1, i.0.1))
          (λ e l i. (i.0.0, i.1, i.0.1))
          (apply_lem o Program.iptables (λ l. NftClean l × SixClean l) (λ r a l i. i) tun_name
            fwmark))
        (Ends-fail (λ l i. i))

  -- The rules for IPv4 are taken back.
  back_lem :
      (ipv4 : Bool) → Ends (Four ipv4) (cleanup_ipv4_if o ipv4) (λ _. AllClean) (λ _. AllClean)
  back_lem false = Ends-pure (λ l i. i)
  back_lem true =
      Ends-weaken (λ l i. (i.0, i.2)) (λ a l i. (i.0.0, i.1, i.0.1)) (λ e l i. (i.0.0, i.1, i.0.1))
        (cleanup_lem o Program.iptables (λ l. NftClean l × SixClean l) (λ r a l i. i) (λ l i. i))

  abbrev Both : Bool → List Entry → Type 0
  Both ipv4 l =
      NftClean l
      × Family ipv4 Program.iptables tun_name fwmark l
      × Family true Program.ip6tables tun_name fwmark l

  abbrev SixTried : Bool → Result FirewallError Unit → List Entry → Type 0
  SixTried ipv4 (ok a) = Both ipv4
  SixTried ipv4 (err e) = Four ipv4

  or_back_lem :
      (ipv4 : Bool) (r : Result FirewallError Unit)
      → Ends
          (SixTried ipv4 r)
          (or_cleanup (cleanup_ipv4_if o ipv4) r)
          (λ _. Both ipv4)
          (λ _. AllClean)
  or_back_lem ipv4 (ok a) = Ends-pure (λ l i. i)
  or_back_lem ipv4 (err e) =
      Ends-chain (λ _. AllClean) (Ends-attempt (λ _. AllClean) (back_lem ipv4))
        (λ _. Ends-fail (λ l i. i))

  six_tried_lem :
      (ipv4 : Bool)
      → Ends
          (Four ipv4)
          (apply_iptables_family o Program.ip6tables tun_name fwmark)
          (λ _. Both ipv4)
          (λ _. Four ipv4)
  six_tried_lem true =
      Ends-weaken (λ l i. (i.0, i.1)) (λ a l i. (i.0.0, i.0.1, i.1)) (λ e l i. (i.0.0, i.0.1, i.1))
        (apply_lem o Program.ip6tables
          (λ l. NftClean l × Family true Program.iptables tun_name fwmark l) (λ r a l i. i) tun_name
          fwmark)
  six_tried_lem false =
      Ends-weaken (λ l i. (i.0, i.1)) (λ a l i. (i.0.0, i.0.1, i.1)) (λ e l i. (i.0.0, i.0.1, i.1))
        (apply_lem o Program.ip6tables (λ l. NftClean l × FourClean l) (λ r a l i. i) tun_name
          fwmark)

  ipv6_lem :
      (ipv4 ipv6 : Bool)
      → Ends
          (Four ipv4)
          (apply_ipv6 o tun_name fwmark ipv4 ipv6)
          (λ _. Guards tun_name fwmark ipv4 ipv6 KillSwitchBackend.iptables)
          (λ _. AllClean)
  ipv6_lem true false = Ends-pure (λ l i. i)
  ipv6_lem false false = Ends-fail (λ l i. i)
  ipv6_lem ipv4 true =
      Ends-if (o.resolve_command Program.ip6tables)
        (Ends-chain (SixTried ipv4) (Ends-attempt (SixTried ipv4) (six_tried_lem ipv4))
          (or_back_lem ipv4))
        (Ends-chain (λ _. AllClean) (back_lem ipv4) (λ _. Ends-fail (λ l i. i)))

  pub iptables_lem :
      (ipv4 ipv6 : Bool)
      → Ends AllClean
          (apply_iptables o tun_name fwmark ipv4 ipv6)
          (λ _. Guards tun_name fwmark ipv4 ipv6 KillSwitchBackend.iptables)
          (λ _. AllClean)
  unfolding apply_iptables
  iptables_lem ipv4 ipv6 = Ends-chain (λ _. Four ipv4) (ipv4_lem ipv4) (λ _. ipv6_lem ipv4 ipv6)
