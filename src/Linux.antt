-- ===== src/Linux.antt =====
-- src/platform/linux/network: the state that the network configuration keeps, and the actions that
-- its pipelines are written in. Texts of errors are left out.
pub mod Rules
pub mod Match
pub mod Machine
pub mod Snapshots
pub mod Plan
pub mod Undo
pub mod Cleanup
pub mod Stages
pub mod Apply
pub mod Recovery
pub mod Keeps
pub mod Shrinks
pub mod Ends
pub mod Journaled
pub mod Covered
pub mod Fits
pub mod Safe
pub mod Works
pub mod Repair
pub mod Crash
pub mod Gone
pub mod Errors
use mathlib.Core.List.{List, []}
use r_wg.Base.{ℕ, Bool, Option, none}
use r_wg.Config.{InterfaceAddress, RouteTable}
use r_wg.Net.{IpAddr}
use r_wg.Report.{RouteApplyReport}
use r_wg.RoutePlan.{RoutePlanRouteOp}

-- network.rs
pub data NetworkError : Type 0 where
  io netlink command_failed dns_verify_failed dns_not_supported link_not_found missing_fwmark
        kill_switch_unavailable :
      NetworkError

-- policy.rs
pub record PolicyRoutingState : Type 0 where
  pub table_id : ℕ
  pub fwmark : ℕ
  pub v4 : Bool
  pub v6 : Bool

-- killswitch.rs. The name of the interface is the tunnel's in every state, and left out.
pub data KillSwitchBackend : Type 0 where
  nftables iptables : KillSwitchBackend

pub record KillSwitchState : Type 0 where
  pub backend : KillSwitchBackend
  pub fwmark : ℕ
  pub ipv4 : Bool
  pub ipv6 : Bool

-- recovery/snapshot.rs
pub record RecoveryRouteSnapshot : Type 0 where
  pub addr : IpAddr
  pub cidr : ℕ
  pub table_id : Option ℕ

pub record RecoveryPolicySnapshot : Type 0 where
  pub table_id : ℕ
  pub fwmark : ℕ
  pub v4 : Bool
  pub v6 : Bool

-- recovery/journal.rs
pub data RecoveryPhase : Type 0 where
  applying running : RecoveryPhase

-- A state of the resolver is named by a number.
pub record RecoveryJournal : Type 0 where
  pub phase : RecoveryPhase
  pub routes : List RecoveryRouteSnapshot
  pub policy : Option RecoveryPolicySnapshot
  pub kill_switch : Option KillSwitchState
  pub dns : Option ℕ

-- network.rs
pub record AppliedNetworkState : Type 0 where
  pub addresses : List InterfaceAddress
  pub routes : List RoutePlanRouteOp
  pub table : Option RouteTable
  pub dns : Option ℕ
  pub policy : Option PolicyRoutingState
  pub kill_switch : Option KillSwitchState
