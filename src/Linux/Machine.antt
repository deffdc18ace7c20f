-- ===== src/Linux/Machine.antt =====
-- What the network configuration changes on the machine, and its calls out. A crash of the process
-- is an outcome of a call, after which nothing runs. A call that is not answered by `done` changes
-- nothing.
use mathlib.Core.List.{List, [], ◌∷◌}
use r_wg.Base.{ℕ, suc, Bool, true, false, not, ◌&&◌, Option, if◌then◌else◌, ◌==◌}
use r_wg.Base.Result.{Result, ok, err}
use r_wg.Config.{InterfaceAddress}
use r_wg.Linux.{
  NetworkError, RecoveryRouteSnapshot, RecoveryJournal, KillSwitchState, KillSwitchBackend,
}
use r_wg.Linux.Rules.{RuleMessage, RuleAttribute, RuleAction, rt_table_main}
use r_wg.Net.{ip_eq}
use r_wg.Report.{RouteApplyReport, unwrap_or}
use r_wg.RoutePlan.Rules.{family_eq}

-- The addresses and the routes of the tunnel's interface, the policy rules, and the files. The
-- kernel holds one route of a prefix and a table.
pub record Machine : Type 0 where
  pub addresses : List InterfaceAddress
  pub routes : List RecoveryRouteSnapshot
  pub rules : List RuleMessage
  pub kill_switch : Option KillSwitchState
  pub dns : Option ℕ
  pub journal : Option RecoveryJournal
  pub report_file : Option RouteApplyReport

pub data Call : Type 0 where
  open_netlink find_link write_report write_journal read_journal remove_journal remove_report
        set_link add_address list_addresses delete_address add_route list_routes delete_route
        add_rule list_rules delete_rule delete_stale_routes apply_kill_switch cleanup_kill_switch
        apply_dns cleanup_dns :
      Call

pub data Reply : Type 0 where
  done crash : Reply
  refused : NetworkError → Reply

-- The answer to each call, by the number of calls before it, and what the two calls that choose a
-- backend return.
pub record Oracle : Type 0 where
  pub reply : Call → ℕ → Reply
  pub backend : ℕ → KillSwitchBackend
  pub resolver : ℕ → ℕ

-- The states of `begin_cleanup_once` and `finish_cleanup_once`.
pub data CleanupState : Type 0 where
  idle in_progress done : CleanupState

pub record Sys : Type 0 where
  pub machine : Machine
  pub report : RouteApplyReport
  pub calls : ℕ
  pub rules_cleanup : CleanupState
  pub routes_cleanup : CleanupState

pub data Outcome (A : Type 0) : Type 0 where
  done : A → Outcome A
  failed : NetworkError → Outcome A
  crashed : Outcome A

abbrev pub Action : Type 0 → Type 0
Action A = Sys → Outcome A × Sys

abbrev pub continue : {A B : Type 0} → Outcome A → (A → Action B) → Action B
continue (Outcome.done a) f s = f a s
continue (Outcome.failed e) f s = (Outcome.failed e, s)
continue Outcome.crashed f s = (Outcome.crashed, s)

infixl 5 ◌>>=◌ ◌>>◌
unfoldable pub ◌>>=◌ : {A B : Type 0} → Action A → (A → Action B) → Action B
◌>>=◌ m f s = continue (m s).0 f (m s).1

abbrev pub ◌>>◌ : {A B : Type 0} → Action A → Action B → Action B
m >> n = m >>= λ _. n

abbrev pub pure : {A : Type 0} → A → Action A
pure a s = (Outcome.done a, s)

abbrev pub fail : {A : Type 0} → NetworkError → Action A
fail e s = (Outcome.failed e, s)

abbrev pub attempted : {A : Type 0} → Outcome A → Outcome (Result NetworkError A)
attempted (Outcome.done a) = Outcome.done (ok a)
attempted (Outcome.failed e) = Outcome.done (err e)
attempted Outcome.crashed = Outcome.crashed

-- A step whose error the caller looks at.
unfoldable pub attempt : {A : Type 0} → Action A → Action (Result NetworkError A)
attempt m s = (attempted (m s).0, (m s).1)

abbrev pub reported :
    {A : Type 0} → (RouteApplyReport → RouteApplyReport) → Result NetworkError A → Action A
reported f (ok a) s = (Outcome.done a, s)
reported f (err e) s = (Outcome.failed e, record s { report = f s.report })

-- `map_err`, which writes to the report.
unfoldable pub on_error : {A : Type 0} → (RouteApplyReport → RouteApplyReport) → Action A → Action A
on_error f m = do r ← attempt m; reported f r

abbrev pub get_sys : Action Sys
get_sys s = (Outcome.done s, s)

abbrev pub get_machine : Action Machine
get_machine s = (Outcome.done s.machine, s)

unfoldable pub edit_report : (RouteApplyReport → RouteApplyReport) → Action Unit
edit_report f s = (Outcome.done tt, record s { report = f s.report })

abbrev pub answered : Reply → (Machine → Machine) → Action Unit
answered Reply.done f s = (Outcome.done tt, record s { machine = f s.machine })
answered (Reply.refused e) f s = (Outcome.failed e, s)
answered Reply.crash f s = (Outcome.crashed, s)

-- The machine after an action.
abbrev pub after : {A : Type 0} → Action A → Sys → Machine
after m s = (m s).1.machine

abbrev pub same : Machine → Machine
same m = m

module _ (o : Oracle) where
  unfoldable pub call : Call → (Machine → Machine) → Action Unit
  call c f s = answered (o.reply c s.calls) f (record s { calls = suc s.calls })

-- Equality of table ids as the match functions test it: none is the main table.
abbrev pub table_of : Option ℕ → ℕ
table_of t = unwrap_or t rt_table_main

abbrev pub same_route : RecoveryRouteSnapshot → RecoveryRouteSnapshot → Bool
same_route a b =
    a.cidr == b.cidr && table_of a.table_id == table_of b.table_id && ip_eq a.addr b.addr

abbrev pub same_address : InterfaceAddress → InterfaceAddress → Bool
same_address a b = a.cidr == b.cidr && ip_eq a.addr b.addr

abbrev pub same_attribute : RuleAttribute → RuleAttribute → Bool
same_attribute (RuleAttribute.priority a) (RuleAttribute.priority b) = a == b
same_attribute (RuleAttribute.table a) (RuleAttribute.table b) = a == b
same_attribute (RuleAttribute.fw_mark a) (RuleAttribute.fw_mark b) = a == b
same_attribute (RuleAttribute.suppress_prefix_len a) (RuleAttribute.suppress_prefix_len b) = a == b
same_attribute _ _ = false

abbrev pub same_attributes : List RuleAttribute → List RuleAttribute → Bool
same_attributes [] [] = true
same_attributes (a ∷ xs) (b ∷ bs) = same_attribute a b && same_attributes xs bs
same_attributes [] (b ∷ bs) = false
same_attributes (a ∷ xs) [] = false

abbrev pub same_action : RuleAction → RuleAction → Bool
same_action RuleAction.unspec RuleAction.unspec = true
same_action RuleAction.to_table RuleAction.to_table = true
same_action RuleAction.unspec RuleAction.to_table = false
same_action RuleAction.to_table RuleAction.unspec = false

abbrev pub same_flag : Bool → Bool → Bool
same_flag true b = b
same_flag false b = not b

abbrev pub same_rule : RuleMessage → RuleMessage → Bool
same_rule a b =
    family_eq a.family b.family
    && same_action a.action b.action
    && a.header_table == b.header_table
    && same_flag a.invert b.invert
    && same_attributes a.attributes b.attributes

-- What is left when everything that is the same as `x` is taken out.
unfoldable pub remove {ℓ} : {A : Type ℓ} → (A → A → Bool) → A → List A → List A
remove same x [] = []
remove same x (y ∷ ys) = let rest = remove same x ys in if same x y then rest else y ∷ rest

abbrev pub without_route : RecoveryRouteSnapshot → Machine → Machine
unfolding remove
without_route r m = record m { routes = remove same_route r m.routes }

abbrev pub without_rule : RuleMessage → Machine → Machine
unfolding remove
without_rule r m = record m { rules = remove same_rule r m.rules }

abbrev pub without_address : InterfaceAddress → Machine → Machine
unfolding remove
without_address a m = record m { addresses = remove same_address a m.addresses }
