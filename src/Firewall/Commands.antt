-- ===== src/Firewall/Commands.antt =====
-- The commands of killswitch.rs, as actions on the list of what was asked before
use mathlib.Core.List.{List, ◌∷◌}
use r_wg.Base.{ℕ, zero, suc, Bool, true, false, not, ◌&&◌, Option, none, some, if◌then◌else◌}
use r_wg.Base.Result.{Result, ok, err}
use r_wg.Config.{Text}
use r_wg.Firewall.{
  Program, ChainRule, Request, Answer, FirewallError, Entry, Oracle, is_missing_firewall_state,
  nft_script,
}
use r_wg.Linux.{KillSwitchBackend, KillSwitchState}

abbrev pub Action : Type 0 → Type 0
Action A = List Entry → Result FirewallError A × List Entry

abbrev pub continue :
    {A B : Type 0}
    → Result FirewallError A
    → (A → Action B)
    → List Entry
    → Result FirewallError B × List Entry
continue (ok a) f l = f a l
continue (err e) f l = (err e, l)

infixl 5 ◌>>=◌ ◌>>◌
unfoldable pub ◌>>=◌ : {A B : Type 0} → Action A → (A → Action B) → Action B
◌>>=◌ m f l = continue (m l).0 f (m l).1

abbrev pub ◌>>◌ : {A B : Type 0} → Action A → Action B → Action B
m >> n = m >>= λ _. n

abbrev pub pure : {A : Type 0} → A → Action A
pure a l = (ok a, l)

abbrev pub fail : {A : Type 0} → FirewallError → Action A
fail e l = (err e, l)

-- The result as a value.
unfoldable pub attempt : {A : Type 0} → Action A → Action (Result FirewallError A)
attempt m l = (ok (m l).0, (m l).1)

abbrev pub ignore_missing_firewall_state : Result FirewallError Unit → Action Unit
ignore_missing_firewall_state (ok a) = pure tt
ignore_missing_firewall_state (err e) = if is_missing_firewall_state e then pure tt else fail e

abbrev pub result_of : Answer → Result FirewallError Unit
result_of Answer.succeeded = ok tt
result_of Answer.not_run = err FirewallError.io
result_of (Answer.exited stderr) = err (FirewallError.command_failed stderr)

abbrev pub asked : Program → Request → Answer → List Entry → Result FirewallError Unit × List Entry
asked p r a l = (result_of a, record { program = p; request = r; answer = a } ∷ l)

-- After a request to delete the jump: again, at an end, or an error.
abbrev pub delete_more : Action Unit → Result FirewallError Unit → Action Unit
delete_more again (ok a) = again
delete_more again (err e) = if is_missing_firewall_state e then pure tt else fail e

-- An error stands after an attempt at cleaning up.
abbrev pub or_cleanup : Action Unit → Result FirewallError Unit → Action Unit
or_cleanup cleanup (ok a) = pure tt
or_cleanup cleanup (err e) = attempt cleanup >> fail e

abbrev pub state_of : KillSwitchBackend → ℕ → Bool → Bool → KillSwitchState
state_of backend fwmark ipv4 ipv6 = record {
  backend = backend;
  fwmark = fwmark;
  ipv4 = ipv4;
  ipv6 = ipv6;
}

abbrev pub or_nft_error : Option FirewallError → FirewallError → FirewallError
or_nft_error (some nft_error) FirewallError.unavailable = nft_error
or_nft_error none FirewallError.unavailable = FirewallError.unavailable
or_nft_error nft_error FirewallError.io = FirewallError.io
or_nft_error nft_error (FirewallError.command_failed s) = FirewallError.command_failed s

abbrev pub iptables_applied :
    KillSwitchState → Option FirewallError → Result FirewallError Unit → Action KillSwitchState
iptables_applied state nft_error (ok a) = pure state
iptables_applied state nft_error (err e) = fail (or_nft_error nft_error e)

module _ (o : Oracle) where
  -- `run_cmd` and `run_cmd_with_input`
  unfoldable pub run_cmd : Program → Request → Action Unit
  run_cmd p r l = asked p r (o.answer l p r) l

  unfoldable pub cleanup_nftables : Action Unit
  cleanup_nftables =
      attempt (run_cmd Program.nft Request.delete_table) >>= ignore_missing_firewall_state

  unfoldable pub apply_nftables : Text → ℕ → Bool → Bool → Action Unit
  apply_nftables tun_name fwmark ipv4 ipv6 =
      attempt cleanup_nftables
      >> run_cmd Program.nft (Request.load_rules (nft_script tun_name fwmark ipv4 ipv6))

  unfoldable pub delete_jumps : ℕ → Program → Action Unit
  delete_jumps zero p = pure tt
  delete_jumps (suc n) p =
      attempt (run_cmd p Request.delete_jump) >>= delete_more (delete_jumps n p)

  unfoldable pub cleanup_iptables_family : Program → Action Unit
  cleanup_iptables_family p =
      delete_jumps 8 p
      >> (attempt (run_cmd p Request.flush_chain) >>= ignore_missing_firewall_state)
      >> (attempt (run_cmd p Request.delete_chain) >>= ignore_missing_firewall_state)

  unfoldable pub apply_iptables_family_inner : Program → Text → ℕ → Action Unit
  apply_iptables_family_inner p tun_name fwmark =
      run_cmd p Request.new_chain
      >> run_cmd p (Request.append ChainRule.return_loopback)
      >> run_cmd p (Request.append (ChainRule.return_interface tun_name))
      >> run_cmd p (Request.append (ChainRule.return_mark fwmark))
      >> run_cmd p (Request.append ChainRule.reject)
      >> run_cmd p Request.insert_jump

  unfoldable pub apply_iptables_family : Program → Text → ℕ → Action Unit
  apply_iptables_family p tun_name fwmark =
      attempt (cleanup_iptables_family p)
      >> attempt (apply_iptables_family_inner p tun_name fwmark)
      >>= or_cleanup (cleanup_iptables_family p)

  abbrev pub apply_ipv4 : Text → ℕ → Bool → Action Unit
  apply_ipv4 tun_name fwmark false = pure tt
  apply_ipv4 tun_name fwmark true =
      if o.resolve_command Program.iptables
      then apply_iptables_family Program.iptables tun_name fwmark
      else fail FirewallError.unavailable

  abbrev pub cleanup_ipv4_if : Bool → Action Unit
  cleanup_ipv4_if applied = if applied then cleanup_iptables_family Program.iptables else pure tt

  abbrev pub apply_ipv6 : Text → ℕ → Bool → Bool → Action Unit
  apply_ipv6 tun_name fwmark applied false =
      if applied then pure tt else fail FirewallError.unavailable
  apply_ipv6 tun_name fwmark applied true =
      if o.resolve_command Program.ip6tables
      then (attempt (apply_iptables_family Program.ip6tables tun_name fwmark)
          >>= or_cleanup (cleanup_ipv4_if applied))
      else (cleanup_ipv4_if applied >> fail FirewallError.unavailable)

  -- `apply_iptables` and `apply_iptables_with_resolver`
  unfoldable pub apply_iptables : Text → ℕ → Bool → Bool → Action Unit
  apply_iptables tun_name fwmark ipv4 ipv6 =
      apply_ipv4 tun_name fwmark ipv4 >> apply_ipv6 tun_name fwmark ipv4 ipv6

  abbrev pub fall_back : Text → ℕ → Bool → Bool → Option FirewallError → Action KillSwitchState
  fall_back tun_name fwmark ipv4 ipv6 nft_error =
      attempt (apply_iptables tun_name fwmark ipv4 ipv6)
      >>= iptables_applied (state_of KillSwitchBackend.iptables fwmark ipv4 ipv6) nft_error

  abbrev pub nftables_applied :
      Text → ℕ → Bool → Bool → Result FirewallError Unit → Action KillSwitchState
  nftables_applied tun_name fwmark ipv4 ipv6 (ok a) =
      pure (state_of KillSwitchBackend.nftables fwmark ipv4 ipv6)
  nftables_applied tun_name fwmark ipv4 ipv6 (err e) =
      attempt cleanup_nftables >> fall_back tun_name fwmark ipv4 ipv6 (some e)

  unfoldable pub apply_kill_switch : Text → ℕ → Bool → Bool → Action KillSwitchState
  apply_kill_switch tun_name fwmark ipv4 ipv6 =
      if not ipv4 && not ipv6
      then fail FirewallError.unavailable
      else (if o.resolve_command Program.nft
          then (attempt (apply_nftables tun_name fwmark ipv4 ipv6)
              >>= nftables_applied tun_name fwmark ipv4 ipv6)
          else fall_back tun_name fwmark ipv4 ipv6 none)

  abbrev pub cleanup_family_if : Program → Bool → Action Unit
  cleanup_family_if p false = pure tt
  cleanup_family_if p true =
      if o.resolve_command p then cleanup_iptables_family p else fail FirewallError.unavailable

  unfoldable pub cleanup_iptables : Bool → Bool → Action Unit
  unfolding ◌>>=◌
  cleanup_iptables ipv4 ipv6 =
      cleanup_family_if Program.iptables ipv4 >> cleanup_family_if Program.ip6tables ipv6

  abbrev pub cleanup_backend : KillSwitchBackend → Bool → Bool → Action Unit
  cleanup_backend KillSwitchBackend.nftables ipv4 ipv6 =
      if o.resolve_command Program.nft then cleanup_nftables else fail FirewallError.unavailable
  cleanup_backend KillSwitchBackend.iptables ipv4 ipv6 = cleanup_iptables ipv4 ipv6

  -- `KillSwitchState::cleanup`
  unfoldable pub cleanup_kill_switch : KillSwitchState → Action Unit
  cleanup_kill_switch s = cleanup_backend s.backend s.ipv4 s.ipv6
