-- ===== src/Engine.antt =====
-- src/backend/wg/engine: the state of the backend worker, its requests, and the actions that its
-- pipelines are written in. The build is the Linux one. Error texts are left out.
pub mod Stop
pub mod Start
pub mod Kernel
pub mod Runner
pub mod Post
pub mod Standings
pub mod KernelSettles
pub mod SlotSettles
pub mod Settles
pub mod Stops
pub mod Runs
use Prim.Native.String.{String}
use r_wg.Base.{ℕ, zero, suc, Bool, true, false, ◌&&◌, Option, none, some, if◌then◌else◌}
use r_wg.Base.Result.{Result, ok, err}

-- src/backend/wg/ephemeral.rs
pub data QuantumMode : Type 0 where
  off on : QuantumMode

pub data DaitaMode : Type 0 where
  off on : DaitaMode

abbrev pub quantum_enabled : QuantumMode → Bool
quantum_enabled QuantumMode.off = false
quantum_enabled QuantumMode.on = true

abbrev pub daita_enabled : DaitaMode → Bool
daita_enabled DaitaMode.off = false
daita_enabled DaitaMode.on = true

pub data EphemeralFailureKind : Type 0 where
  unsupported_config relay_inventory connect rpc timeout invalid_server_response reconfigure :
      EphemeralFailureKind

-- engine/types.rs
pub data EngineStatus : Type 0 where
  stopped running : EngineStatus

pub data ActiveBackendStatus : Type 0 where
  linux_kernel userspace_gotatun : ActiveBackendStatus

pub data BackendPreference : Type 0 where
  auto kernel userspace : BackendPreference

-- engine/backend_strategy.rs
pub data BackendDecision : Type 0 where
  userspace_gotatun linux_kernel : BackendDecision

-- engine/error.rs
pub data EngineError : Type 0 where
  channel_closed already_running not_running access_denied device config network kernel_wireguard
        unsupported_backend ephemeral remote :
      EngineError

-- The configuration text stands as what the pipeline reads from it: whether it parses, whether its
-- endpoints resolve, and whether it has a peer. The last is asked of the first peer only.
pub record StartRequest : Type 0 where
  pub tun_name : String
  pub parses : Bool
  pub resolves : Bool
  pub has_peer : Bool
  pub has_ipv6_routes : Bool
  pub quantum_mode : QuantumMode
  pub daita_mode : DaitaMode
  pub kill_switch_enabled : Bool
  pub preference : BackendPreference

-- A userspace device, or a kernel interface, by its name.
pub data ActiveBackend : Type 0 where
  userspace : String → ActiveBackend
  kernel : String → ActiveBackend

-- engine/state.rs. Network states and reports are named by numbers.
pub record EngineState : Type 0 where
  pub cached_userspace_device : Option String
  pub active_backend : Option ActiveBackend
  pub net_state : Option ℕ
  pub route_apply_report : Option ℕ
  pub running : Bool
  pub quantum_active : Bool
  pub daita_active : Bool
  pub ephemeral_key_active : Bool
  pub last_quantum_failure : Option EphemeralFailureKind
  pub last_daita_failure : Option EphemeralFailureKind

-- What the worker sets up on the machine is down, up, or left there by a removal that was refused.
pub data Standing : Type 0 where
  down up left : Standing

-- The network configuration, the kernel interface, the traffic guard, and the number of calls so far.
pub record World : Type 0 where
  pub calls : ℕ
  pub net : Standing
  pub kernel_device : Standing
  pub guard : Standing

pub record Sys : Type 0 where
  pub state : EngineState
  pub world : World

-- The outcome of each call out of the engine, by the number of calls before it.
pub record Oracle : Type 0 where
  pub validate_daita : ℕ → Option EphemeralFailureKind
  pub create_tun : ℕ → Bool
  pub configure : ℕ → Bool
  pub clear_peers : ℕ → Bool
  pub apply_network : ℕ → Bool
  pub cleanup_network : ℕ → Bool
  pub upgrade : ℕ → Option EphemeralFailureKind
  pub start_kernel : ℕ → Bool
  pub kernel_unavailable : ℕ → Bool
  pub delete_kernel : ℕ → Bool
  pub clear_journal : ℕ → Bool
  pub mark_running : ℕ → Bool
  pub apply_guard : ℕ → Bool
  pub cleanup_guard : ℕ → Bool
  pub apply_update : ℕ → Bool

-- A method that changes the state and may fail. What was written before a failure stays.
abbrev pub Action : Type 0 → Type 0
Action A = Sys → Result EngineError A × Sys

abbrev pub continue : {A B : Type 0} → Result EngineError A → (A → Action B) → Action B
continue (ok a) f s = f a s
continue (err e) f s = (err e, s)

infixl 5 ◌>>=◌ ◌>>◌
abbrev pub ◌>>=◌ : {A B : Type 0} → Action A → (A → Action B) → Action B
◌>>=◌ m f s = continue (m s).0 f (m s).1

abbrev pub ◌>>◌ : {A B : Type 0} → Action A → Action B → Action B
m >> n = m >>= λ _. n

abbrev pub pure : {A : Type 0} → A → Action A
pure a s = (ok a, s)

abbrev pub fail : {A : Type 0} → EngineError → Action A
fail e s = (err e, s)

-- A call whose error the caller looks at.
abbrev pub attempt : {A : Type 0} → Action A → Action (Result EngineError A)
attempt m s = (ok (m s).0, (m s).1)

abbrev pub get_state : Action EngineState
get_state s = (ok s.state, s)

abbrev pub modify : (EngineState → EngineState) → Action Unit
modify f s = (ok tt, record s { state = f s.state })

-- A call out of the engine: it is counted, and changes the world when it succeeds.
abbrev pub call : (ℕ → Bool) → (World → World) → Action Bool
call outcome effect s =
    let w = record s.world { calls = suc s.world.calls } in
    let done = outcome s.world.calls in (ok done, record s { world = if done then effect w else w })

-- A call that takes something down, or leaves it when it is refused.
abbrev pub remove : (ℕ → Bool) → (Standing → World → World) → Action Bool
remove outcome put s =
    let w = record s.world { calls = suc s.world.calls } in
    let done = outcome s.world.calls in
    (ok done, record s { world = if done then put Standing.down w else put Standing.left w })

abbrev pub ask : (ℕ → Option EphemeralFailureKind) → Action (Option EphemeralFailureKind)
ask outcome s =
    (ok (outcome s.world.calls), record s { world = record s.world { calls = suc s.world.calls } })

abbrev pub when : Bool → Action Unit → Action Unit
when true m = m
when false m = pure tt

abbrev pub clear_flags : EngineState → EngineState
clear_flags s = record s {
  running = false;
  quantum_active = false;
  daita_active = false;
  ephemeral_key_active = false;
  last_quantum_failure = none;
  last_daita_failure = none;
}
