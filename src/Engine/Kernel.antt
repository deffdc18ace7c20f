-- ===== src/Engine/Kernel.antt =====
-- src/backend/wg/engine/start_pipeline.rs: `start_linux_kernel`, `upgrade_kernel_ephemeral`, `start`
use r_wg.Base.{ℕ, Bool, true, false, not, none, some, is_some, if◌then◌else◌}
use r_wg.Base.Result.{Result, ok, err}
use r_wg.Engine.{
  EngineState, Oracle, ActiveBackend, Action, EngineError, StartRequest, BackendPreference,
  BackendDecision, EphemeralFailureKind, quantum_enabled, daita_enabled, ◌>>=◌, ◌>>◌, pure, fail,
  attempt, get_state, modify, call, remove, ask, when,
}
use r_wg.Engine.Stop.{
  cleanup_active_network_state, delete_kernel, shutdown_active_backend,
  shutdown_cached_userspace_device,
}
use r_wg.Engine.Start.{
  KernelStartError, into_engine_error, kernel_on, guard_on, guard_to, same, set_quantum_failure,
  set_daita_failure, upgraded, resolve_backend, apply_network_config, start_userspace_gotatun,
}

abbrev pub Outcome : Type 0
Outcome = Result KernelStartError Unit

abbrev pub give_up : EngineError → Action Outcome
give_up e = pure (err (KernelStartError.engine e))

-- The error of a cleanup stands before the error that led to it.
abbrev pub first_error : Result EngineError Unit → KernelStartError → Outcome
first_error (ok _) e = err e
first_error (err c) e = err (KernelStartError.engine c)

module _ (o : Oracle) where
  -- The interface is deleted, and its journal when that succeeds.
  unfoldable pub discard_kernel : Action Unit
  unfolding delete_kernel
  discard_kernel = do
    deleted ← delete_kernel o
    if deleted then (do _ ← call o.clear_journal same; pure tt) else pure tt

  -- `quantum_guard.take()`: no guard is no failure.
  unfoldable pub take_guard : Bool → Action Bool
  take_guard false = pure true
  take_guard true = remove o.cleanup_guard guard_to

  unfoldable pub refuse_upgrade : EphemeralFailureKind → Action Outcome
  refuse_upgrade kind = do modify (set_quantum_failure (some kind)); give_up EngineError.ephemeral

  -- The update is negotiated, and then applied to the kernel device.
  unfoldable pub negotiate : StartRequest → Action Outcome
  unfolding refuse_upgrade upgraded
  negotiate r = do
    failure ← ask o.upgrade
    elim failure [
      | some kind ↦ refuse_upgrade kind
      | none ↦ do
        applied ← call o.apply_update same
        if applied
            then (do modify (upgraded r); pure (ok tt))
            else refuse_upgrade EphemeralFailureKind.reconfigure
    ]

  unfoldable pub upgrade_kernel_ephemeral : StartRequest → Action Outcome
  unfolding refuse_upgrade negotiate
  upgrade_kernel_ephemeral r =
      if daita_enabled r.daita_mode
      then give_up EngineError.unsupported_backend
      else (if not r.has_peer
          then refuse_upgrade EphemeralFailureKind.unsupported_config
          else negotiate r)

  -- The network is cleaned up and the device discarded.
  unfoldable pub roll_back : KernelStartError → Action Outcome
  unfolding cleanup_active_network_state discard_kernel
  roll_back error = do
    cleanup ← attempt (cleanup_active_network_state o)
    discard_kernel
    pure (first_error cleanup error)

  -- The error of the guard stands before the error of the cleanup.
  unfoldable pub roll_back_upgrade : KernelStartError → Action Outcome
  unfolding take_guard roll_back
  roll_back_upgrade error = do
    lifted ← take_guard true
    outcome ← roll_back error
    if lifted then pure outcome else give_up EngineError.network

  -- With quantum: the upgrade under the guard, and then the guard lifted.
  unfoldable pub upgrade_under_guard : StartRequest → Action Outcome
  unfolding upgrade_kernel_ephemeral roll_back_upgrade take_guard roll_back
  upgrade_under_guard r = do
    upgrade ← upgrade_kernel_ephemeral r
    elim upgrade [
      | err error ↦ roll_back_upgrade error
      | ok _ ↦ do
        lifted ← take_guard true
        if lifted then pure (ok tt) else roll_back (KernelStartError.engine EngineError.network)
    ]

  unfoldable pub finish_kernel : StartRequest → Action Outcome
  finish_kernel r = do
    modify
        (λ s. record s { active_backend = some (ActiveBackend.kernel r.tun_name); running = true })
    pure (ok tt)

  -- From the journal's mark on.
  unfoldable pub after_network : StartRequest → Action Outcome
  unfolding take_guard roll_back upgrade_under_guard finish_kernel
  after_network r = do
    w ← (λ s. (ok s.world.calls, s))
    marked ← call o.mark_running same
    if not marked
        then (do
          _ ← take_guard (quantum_enabled r.quantum_mode)
          roll_back (KernelStartError.kernel (o.kernel_unavailable w)))
        else (do
          upgrade ← (if quantum_enabled r.quantum_mode then upgrade_under_guard r else pure (ok tt))
          elim upgrade [ err e ↦ pure (err e) | ok _ ↦ finish_kernel r ])

  -- The network is applied, under the guard when there is one.
  unfoldable pub with_guard : StartRequest → Action Outcome
  unfolding apply_network_config take_guard discard_kernel after_network
  with_guard r = do
    applied ← apply_network_config o
    if not applied
        then (do
          _ ← take_guard (quantum_enabled r.quantum_mode)
          discard_kernel
          give_up EngineError.network)
        else after_network r

  unfoldable pub raise_guard : StartRequest → Action Bool
  raise_guard r = if quantum_enabled r.quantum_mode then call o.apply_guard guard_on else pure true

  abbrev pub after_raise : StartRequest → Bool → Action Outcome
  after_raise r raised =
      if not raised then discard_kernel >> give_up EngineError.network else with_guard r

  -- The guard is raised before the network is applied.
  unfoldable pub guarded : StartRequest → Action Outcome
  unfolding raise_guard discard_kernel with_guard
  guarded r = do raised ← raise_guard r; after_raise r raised

  abbrev pub after_create : StartRequest → ℕ → Bool → Action Outcome
  after_create r before created =
      if not created
      then pure (err (KernelStartError.kernel (o.kernel_unavailable before)))
      else guarded r

  unfoldable pub create_kernel : StartRequest → Action Outcome
  unfolding guarded
  create_kernel r = do
    w ← (λ s. (ok s.world.calls, s))
    created ← call o.start_kernel kernel_on
    after_create r w created

  unfoldable pub start_linux_kernel : StartRequest → Action Outcome
  unfolding shutdown_active_backend shutdown_cached_userspace_device create_kernel
  start_linux_kernel r = do
    s ← get_state
    when (is_some s.active_backend) (shutdown_active_backend o)
    shutdown_cached_userspace_device
    create_kernel r

  -- Only an unavailable kernel under the automatic preference falls back.
  unfoldable pub falls_back : BackendPreference → KernelStartError → Bool
  falls_back BackendPreference.auto (KernelStartError.kernel unavailable) = unavailable
  falls_back BackendPreference.auto (KernelStartError.engine _) = false
  falls_back BackendPreference.kernel e = false
  falls_back BackendPreference.userspace e = false

  abbrev pub after_kernel : StartRequest → Outcome → Action Unit
  after_kernel r (ok _) = pure tt
  after_kernel r (err e) =
      if falls_back r.preference e then start_userspace_gotatun o r else fail (into_engine_error e)

  unfoldable pub start_backend : StartRequest → BackendDecision → Action Unit
  unfolding start_userspace_gotatun start_linux_kernel falls_back
  start_backend r BackendDecision.userspace_gotatun = start_userspace_gotatun o r
  start_backend r BackendDecision.linux_kernel = start_linux_kernel r >>= after_kernel r

  -- The configuration is parsed and checked, and its endpoints are resolved.
  unfoldable pub prepare : StartRequest → Action Unit
  prepare r = do
    (if r.parses then pure tt else fail EngineError.config)
    failure ← (if daita_enabled r.daita_mode then ask o.validate_daita else pure none)
    elim failure [
      | some kind ↦ modify (set_daita_failure (some kind)) >> fail EngineError.ephemeral
      | none ↦ if r.resolves then pure tt else fail EngineError.config
    ]

  abbrev pub forget_ephemeral : EngineState → EngineState
  forget_ephemeral s = record s {
    quantum_active = false;
    daita_active = false;
    ephemeral_key_active = false;
    last_quantum_failure = none;
    last_daita_failure = none;
  }

  -- What the last tunnel left is cleared.
  unfoldable pub clear_start : Action Unit
  unfolding shutdown_active_backend
  clear_start = do
    modify (λ s. record s { route_apply_report = none })
    s ← get_state
    when (is_some s.active_backend) (shutdown_active_backend o)
    modify forget_ephemeral

  abbrev pub decision : StartRequest → Action BackendDecision
  decision r s = (resolve_backend r.preference r.daita_mode r.quantum_mode, s)

  unfoldable pub decide : StartRequest → Action Unit
  unfolding resolve_backend prepare start_backend
  decide r = decision r >>= λ d. (prepare r >> start_backend r d)

  unfoldable pub start_stopped : StartRequest → Action Unit
  unfolding clear_start decide
  start_stopped r = clear_start >> decide r

  unfoldable pub start : StartRequest → Action Unit
  unfolding start_stopped
  start r = do
    s ← get_state
    if s.running then fail EngineError.already_running else start_stopped r
