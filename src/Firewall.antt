-- ===== src/Firewall.antt =====
-- The kill switch: src/platform/linux/network/killswitch.rs. The requests that its commands make, and
-- the commands. A request stands for its arguments; what a program answers is a parameter.
pub mod Commands
pub mod Ends
pub mod Families
pub mod Sweeps
pub mod Installs
pub mod Tables
pub mod Guarded
pub mod Removed
use mathlib.Core.List.{List, [], ◌∷◌, ◌++◌}
use r_wg.Base.{ℕ, Bool, true, false, ◌||◌, if◌then◌else◌, ◌==◌}
use r_wg.Base.Result.{Result, ok, err}
use r_wg.Base.Texts.{codes, starts_with, to_ascii_lowercase}
use r_wg.Config.{Text}

pub data Program : Type 0 where
  nft iptables ip6tables : Program

-- A line of the script for nft. The name in `accept_interface` is quoted.
pub data NftLine : Type 0 where
  add_table add_chain accept_loopback drop_ipv4 drop_ipv6 : NftLine
  accept_interface : Text → NftLine
  accept_mark : ℕ → NftLine

-- A rule of the chain.
pub data ChainRule : Type 0 where
  return_loopback reject : ChainRule
  return_interface : Text → ChainRule
  return_mark : ℕ → ChainRule

-- `-f -`, `delete table`, `-D OUTPUT -j`, `-F`, `-X`, `-N`, `-I OUTPUT 1 -j` and `-A`.
pub data Request : Type 0 where
  delete_table delete_jump flush_chain delete_chain new_chain insert_jump : Request
  load_rules : List NftLine → Request
  append : ChainRule → Request

-- A program ends well, ends with a text of errors, or cannot be run.
pub data Answer : Type 0 where
  succeeded not_run : Answer
  exited : Text → Answer

pub data FirewallError : Type 0 where
  unavailable io : FirewallError
  command_failed : Text → FirewallError

-- What was asked of which program, and its answer.
pub record Entry : Type 0 where
  pub program : Program
  pub request : Request
  pub answer : Answer

-- Which programs are there, and what they answer after what they were asked before, last first.
pub record Oracle : Type 0 where
  pub resolve_command : Program → Bool
  pub answer : List Entry → Program → Request → Answer

-- `str::contains`
abbrev pub contains : Text → Text → Bool
contains part [] = starts_with part []
contains part (c ∷ s) = starts_with part (c ∷ s) || contains part s

abbrev pub says_missing : Text → Bool
says_missing stderr =
    contains (codes "no such file") stderr
    || contains (codes "no such table") stderr
    || contains (codes "no such chain") stderr
    || contains (codes "does not exist") stderr
    || contains (codes "does a matching rule exist") stderr
    || contains (codes "no chain/target/match") stderr

unfoldable pub is_missing_firewall_state : FirewallError → Bool
is_missing_firewall_state (FirewallError.command_failed stderr) =
    says_missing (to_ascii_lowercase stderr)
is_missing_firewall_state FirewallError.unavailable = false
is_missing_firewall_state FirewallError.io = false

-- `str::replace` of a character by itself with `\` in front.
unfoldable pub escape : ℕ → Text → Text
escape special [] = []
escape special (c ∷ s) =
    let rest = escape special s in if c == special then 92 ∷ c ∷ rest else c ∷ rest

unfoldable pub nft_string : Text → Text
unfolding escape
nft_string value = escape 34 (escape 92 value)

abbrev pub only_if : Bool → NftLine → List NftLine
only_if b line = if b then line ∷ [] else []

unfoldable pub nft_script : Text → ℕ → Bool → Bool → List NftLine
unfolding nft_string
nft_script tun_name fwmark ipv4 ipv6 =
    (NftLine.add_table
      ∷ NftLine.add_chain
      ∷ NftLine.accept_loopback
      ∷ NftLine.accept_interface (nft_string tun_name)
      ∷ NftLine.accept_mark fwmark
      ∷ [])
    ++ only_if ipv4 NftLine.drop_ipv4
    ++ only_if ipv6 NftLine.drop_ipv6
