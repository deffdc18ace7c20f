-- ===== src/Engine/Standings.antt =====
-- What holds of the worker and its world between the steps of a start.
use r_wg.Base.{suc, ◌≡◌, Bool, true, false, not, ◌&&◌, Option, none, some, is_some}
use r_wg.Base.Result.{Result, ok, err}
use r_wg.Engine.{EngineState, World, Standing, Sys, ActiveBackend, EngineError}
use r_wg.Engine.Kernel.{Outcome}

abbrev pub is_up : Standing → Bool
is_up Standing.down = false
is_up Standing.up = true
is_up Standing.left = false

abbrev pub is_kernel : Option ActiveBackend → Bool
is_kernel none = false
is_kernel (some (ActiveBackend.userspace _)) = false
is_kernel (some (ActiveBackend.kernel _)) = true

-- The worker does not run and holds nothing.
abbrev pub Idle : EngineState → Type 0
Idle s = (s.running ≡ false) × (s.net_state ≡ none) × (s.active_backend ≡ none)

-- The tunnel runs on a backend, over a network configuration that has a report.
abbrev pub IsUp : EngineState → Type 0
IsUp s =
    (s.running ≡ true)
    × (is_some s.net_state ≡ true)
    × (is_some s.active_backend ≡ true)
    × (is_some s.route_apply_report ≡ true)

-- Nothing is up: what is not down was left by a removal that was refused.
abbrev pub NoneUp : World → Type 0
NoneUp w = (is_up w.net ≡ false) × (is_up w.kernel_device ≡ false) × (is_up w.guard ≡ false)

-- No guard is up, and a network configuration or a kernel interface is up only if the state has it.
abbrev pub Known : Sys → Type 0
Known s =
    ((is_up s.world.net && not (is_some s.state.net_state)) ≡ false)
    × ((is_up s.world.kernel_device && not (is_kernel s.state.active_backend)) ≡ false)
    × (is_up s.world.guard ≡ false)

-- The proofs read the world only where `b` is true, so that they serve a worker of which the world
-- is not known as well.
abbrev pub NoneUpIf : Bool → World → Type 0
NoneUpIf b w =
    ((b && is_up w.net) ≡ false)
    × ((b && is_up w.kernel_device) ≡ false)
    × ((b && is_up w.guard) ≡ false)

abbrev pub KnownIf : Bool → Sys → Type 0
KnownIf b s =
    ((b && (is_up s.world.net && not (is_some s.state.net_state))) ≡ false)
    × ((b && (is_up s.world.kernel_device && not (is_kernel s.state.active_backend))) ≡ false)
    × ((b && is_up s.world.guard) ≡ false)

abbrev pub IdleIf : Bool → Sys → Type 0
IdleIf b s = Idle s.state × NoneUpIf b s.world

abbrev pub IsUpIf : Bool → Sys → Type 0
IsUpIf b s = IsUp s.state × (s.world.net ≡ Standing.up) × KnownIf b s

abbrev pub SettledIf : Bool → Result EngineError Unit → Sys → Type 0
SettledIf b (ok _) s = IsUpIf b s
SettledIf b (err _) s = IdleIf b s

abbrev pub KernelSettled : Bool → Result EngineError Outcome → Sys → Type 0
KernelSettled b (ok (ok _)) s = IsUpIf b s
KernelSettled b (ok (err _)) s = IdleIf b s
KernelSettled b (err _) s = IdleIf b s

-- With a kernel interface, and with a guard only where `q` is true.
abbrev pub GuardedIf : Bool → Bool → Sys → Type 0
GuardedIf b q s =
    Idle s.state
    × ((b && is_up s.world.net) ≡ false)
    × ((b && (is_up s.world.guard && not q)) ≡ false)

-- And with the network configuration.
abbrev pub Networked : Sys → Type 0
Networked s =
    (s.state.running ≡ false)
    × (s.state.active_backend ≡ none)
    × (is_some s.state.net_state ≡ true)
    × (is_some s.state.route_apply_report ≡ true)
    × (s.world.net ≡ Standing.up)

abbrev pub Unguarded : Bool → Bool → Sys → Type 0
Unguarded b q s = (b && (is_up s.world.guard && not q)) ≡ false

-- An upgrade that fails is rolled back; one that succeeds leaves the network as it was.
abbrev pub Raised : Bool → Result EngineError Outcome → Sys → Type 0
Raised b (ok (ok _)) s = Networked s × ((b && is_up s.world.guard) ≡ false)
Raised b (ok (err _)) s = IdleIf b s
Raised b (err _) s = ⊥

abbrev pub Failed : Bool → Result EngineError Outcome → Sys → Type 0
Failed b (ok (err _)) s =
    Idle s.state × ((b && is_up s.world.net) ≡ false) × ((b && is_up s.world.kernel_device) ≡ false)
Failed b _ s = ⊥

-- On the userspace path no kernel interface and no guard is up.
abbrev pub Slotted : Bool → Sys → Type 0
Slotted b s =
    Networked s
    × ((b && is_up s.world.kernel_device) ≡ false)
    × ((b && is_up s.world.guard) ≡ false)

abbrev pub RaisedSlot : Bool → Result EngineError Unit → Sys → Type 0
RaisedSlot b (ok _) s = Slotted b s
RaisedSlot b (err _) s = IdleIf b s

-- After a call that changes nothing else.
abbrev pub counted : Sys → Sys
counted s = record s { world = record s.world { calls = suc s.world.calls } }
