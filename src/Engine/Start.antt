-- ===== src/Engine/Start.antt =====
-- src/backend/wg/engine/start_pipeline.rs and backend_strategy.rs
use Prim.Native.String.{String}
use text.Mathlib.Text.{◌==◌}
use r_wg.Base.{Bool, true, false, not, ◌||◌, Option, none, some, is_some, if◌then◌else◌}
use r_wg.Base.Result.{Result, ok, err}
use r_wg.Engine.{
  EngineState, Standing, World, Oracle, ActiveBackend, Action, EngineError, StartRequest,
  BackendPreference, BackendDecision, DaitaMode, QuantumMode, EphemeralFailureKind, quantum_enabled,
  daita_enabled, continue, ◌>>=◌, ◌>>◌, pure, fail, attempt, get_state, modify, call, ask, when,
}
use r_wg.Engine.Stop.{
  cleanup_active_network_state, cache_cleared_userspace_slot, shutdown_active_backend,
  shutdown_cached_userspace_device,
}

-- On Linux the platform's choices are the kernel.
unfoldable pub resolve_backend :
    BackendPreference → DaitaMode → QuantumMode → Result EngineError BackendDecision
resolve_backend BackendPreference.kernel DaitaMode.on q = err EngineError.unsupported_backend
resolve_backend BackendPreference.auto DaitaMode.on q = ok BackendDecision.userspace_gotatun
resolve_backend BackendPreference.userspace DaitaMode.on q = ok BackendDecision.userspace_gotatun
resolve_backend BackendPreference.userspace DaitaMode.off q = ok BackendDecision.userspace_gotatun
resolve_backend BackendPreference.kernel DaitaMode.off q = ok BackendDecision.linux_kernel
resolve_backend BackendPreference.auto DaitaMode.off q = ok BackendDecision.linux_kernel

abbrev pub net_on : World → World
net_on w = record w { net = Standing.up }

abbrev pub kernel_on : World → World
kernel_on w = record w { kernel_device = Standing.up }

abbrev pub guard_on : World → World
guard_on w = record w { guard = Standing.up }

abbrev pub guard_to : Standing → World → World
guard_to standing w = record w { guard = standing }

abbrev pub same : World → World
same w = w

abbrev pub set_quantum_failure : Option EphemeralFailureKind → EngineState → EngineState
set_quantum_failure k s = record s { last_quantum_failure = k }

abbrev pub set_daita_failure : Option EphemeralFailureKind → EngineState → EngineState
set_daita_failure k s = record s { last_daita_failure = k }

-- A failed negotiation is remembered for each mode that asked for it.
unfoldable pub remember_failure : StartRequest → EphemeralFailureKind → Action Unit
remember_failure r kind = do
  when (quantum_enabled r.quantum_mode) (modify (set_quantum_failure (some kind)))
  when (daita_enabled r.daita_mode) (modify (set_daita_failure (some kind)))

-- The outcome of a negotiation is the modes that were asked for.
unfoldable pub upgraded : StartRequest → EngineState → EngineState
upgraded r s = record s {
  quantum_active = quantum_enabled r.quantum_mode;
  daita_active = daita_enabled r.daita_mode;
  ephemeral_key_active = quantum_enabled r.quantum_mode || daita_enabled r.daita_mode;
  last_quantum_failure = none;
  last_daita_failure = none;
}

-- An error of the kernel path, with whether it may fall back to userspace.
pub data KernelStartError : Type 0 where
  kernel : Bool → KernelStartError
  engine : EngineError → KernelStartError

abbrev pub into_engine_error : KernelStartError → EngineError
into_engine_error (KernelStartError.kernel _) = EngineError.kernel_wireguard
into_engine_error (KernelStartError.engine e) = e

module _ (o : Oracle) where
  -- The configuration applied, or its error; either way there is a report.
  unfoldable pub apply_network_config : Action Bool
  apply_network_config s =
      continue (ok (o.apply_network s.world.calls))
        (λ done. do
          let handle = s.world.calls
          _ ← call o.apply_network net_on
          modify (λ t. record t {
            net_state = if done then some handle else t.net_state;
            route_apply_report = some handle;
          })
          pure done)
        s

  unfoldable pub upgrade_userspace_ephemeral : StartRequest → Action Unit
  unfolding remember_failure upgraded
  upgrade_userspace_ephemeral r =
      if not r.has_peer
      then (do
        remember_failure r EphemeralFailureKind.unsupported_config
        fail EngineError.ephemeral)
      else do
        failure ← ask o.upgrade
        elim failure [
          | none ↦ modify (upgraded r)
          | some kind ↦ remember_failure r kind >> fail EngineError.ephemeral
        ]

  unfoldable pub recover_userspace_slot : String → Bool → Action Unit
  unfolding cache_cleared_userspace_slot
  recover_userspace_slot slot created_new =
      if created_new then pure tt else cache_cleared_userspace_slot o slot

  unfoldable pub finish_userspace : String → Action Unit
  finish_userspace slot =
      modify
        (λ s. record s { active_backend = some (ActiveBackend.userspace slot); running = true })

  -- The upgrade, and the rollback where it fails.
  unfoldable pub upgrade_or_roll_back : StartRequest → String → Bool → Action Unit
  unfolding upgrade_userspace_ephemeral recover_userspace_slot cleanup_active_network_state
  upgrade_or_roll_back r slot created_new = do
    upgrade ← attempt (upgrade_userspace_ephemeral r)
    elim upgrade [
      | ok _ ↦ pure tt
      | err error ↦ do
        cleanup ← attempt (cleanup_active_network_state o)
        recover_userspace_slot slot created_new
        elim cleanup [ ok _ ↦ fail error | err e ↦ fail e ]
    ]

  -- The upgrade when a mode asks for it, and the mark as running.
  unfoldable pub raise_slot : StartRequest → String → Bool → Action Unit
  unfolding upgrade_or_roll_back finish_userspace
  raise_slot r slot created_new = do
    (if quantum_enabled r.quantum_mode || daita_enabled r.daita_mode
        then upgrade_or_roll_back r slot created_new
        else pure tt)
    finish_userspace slot

  unfoldable pub give_up_slot : String → Bool → EngineError → Action Unit
  unfolding recover_userspace_slot
  give_up_slot slot created_new error = recover_userspace_slot slot created_new >> fail error

  unfoldable pub network_slot : StartRequest → String → Bool → Action Unit
  unfolding apply_network_config raise_slot give_up_slot
  network_slot r slot created_new = do
    applied ← apply_network_config
    if not applied
        then give_up_slot slot created_new EngineError.network
        else raise_slot r slot created_new

  abbrev pub after_configure : StartRequest → String → Bool → Bool → Action Unit
  after_configure r slot created_new configured =
      if not configured
      then give_up_slot slot created_new EngineError.device
      else network_slot r slot created_new

  -- From the device slot on: configure, apply the network, upgrade, and mark as running.
  unfoldable pub run_slot : StartRequest → String → Bool → Action Unit
  unfolding give_up_slot network_slot
  run_slot r slot created_new = do
    configured ← call o.configure same
    after_configure r slot created_new configured

  -- The device of another name is dropped.
  unfoldable pub drop_other_slot : StartRequest → Action Unit
  unfolding shutdown_cached_userspace_device
  drop_other_slot r = do
    t ← get_state
    elim t.cached_userspace_device [
      | none ↦ pure tt
      | some slot ↦ when (not (slot == r.tun_name)) shutdown_cached_userspace_device
    ]

  abbrev pub after_create_tun : StartRequest → Bool → Action Unit
  after_create_tun r created =
      if created then run_slot r r.tun_name true else fail EngineError.device

  -- `self.cached_userspace_device.take()`, or a new device.
  unfoldable pub take_slot : StartRequest → Action Unit
  unfolding run_slot
  take_slot r = do
    u ← get_state
    modify (λ s. record s { cached_userspace_device = none })
    elim u.cached_userspace_device [
      | some slot ↦ run_slot r slot false
      | none ↦ do created ← call o.create_tun same; after_create_tun r created
    ]

  unfoldable pub start_userspace_gotatun : StartRequest → Action Unit
  unfolding shutdown_active_backend drop_other_slot take_slot
  start_userspace_gotatun r = do
    s ← get_state
    when (is_some s.active_backend) (shutdown_active_backend o)
    drop_other_slot r
    take_slot r
