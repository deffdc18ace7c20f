-- ===== src/Engine/Runner.antt =====
-- src/backend/wg/engine/runner.rs and snapshot.rs: the loop that serves one command after the other
use mathlib.Core.List.{List, [], ◌∷◌}
use r_wg.Base.{ℕ, Bool, ◌&&◌, Option, none, some, if◌then◌else◌}
use r_wg.Base.Result.{Result, ok, err}
use r_wg.Engine.{
  EngineState, Sys, Oracle, ActiveBackend, Action, EngineError, StartRequest, EngineStatus,
  ActiveBackendStatus, EphemeralFailureKind, ◌>>=◌, ◌>>◌, fail, attempt, get_state, modify,
}
use r_wg.Engine.Stop.{
  cleanup_active_network_state, shutdown_active_backend, shutdown_cached_userspace_device,
}
use r_wg.Engine.Kernel
use r_wg.Engine.Stop

pub record EngineRuntimeSnapshot : Type 0 where
  pub status : EngineStatus
  pub active_backend : Option ActiveBackendStatus
  pub apply_report : Option ℕ
  pub quantum_protected : Bool
  pub last_quantum_failure : Option EphemeralFailureKind
  pub daita_active : Bool
  pub last_daita_failure : Option EphemeralFailureKind

unfoldable pub status : EngineState → EngineStatus
status s = if s.running then EngineStatus.running else EngineStatus.stopped

-- The backend whose statistics are read.
unfoldable pub stats : EngineState → Result EngineError ActiveBackend
stats s =
    if s.running
    then (elim s.active_backend [ none ↦ err EngineError.not_running | some b ↦ ok b ])
    else err EngineError.not_running

abbrev pub backend_status : ActiveBackend → ActiveBackendStatus
backend_status (ActiveBackend.userspace _) = ActiveBackendStatus.userspace_gotatun
backend_status (ActiveBackend.kernel _) = ActiveBackendStatus.linux_kernel

unfoldable pub runtime_snapshot : EngineState → EngineRuntimeSnapshot
unfolding status
runtime_snapshot s = record {
  status = status s;
  active_backend = elim s.active_backend [ none ↦ none | some b ↦ some (backend_status b) ];
  apply_report = s.route_apply_report;
  quantum_protected = s.running && s.quantum_active;
  last_quantum_failure = s.last_quantum_failure;
  daita_active = s.running && s.daita_active;
  last_daita_failure = s.last_daita_failure;
}

-- The commands that change the state. A start that panics leaves the state that it had reached.
pub data Command : Type 0 where
  start : StartRequest → Command
  start_panics : EngineState → Command
  stop : Command

module _ (o : Oracle) where
  unfoldable pub recover_after_worker_panic : Action Unit
  unfolding cleanup_active_network_state shutdown_active_backend shutdown_cached_userspace_device
  recover_after_worker_panic = do
    s ← get_state
    _ ← attempt (cleanup_active_network_state o)
    shutdown_active_backend o
    shutdown_cached_userspace_device
    modify (λ t. record t { route_apply_report = s.route_apply_report })

  unfoldable pub handle : Command → Action Unit
  unfolding Kernel.start Stop.stop recover_after_worker_panic
  handle (Command.start r) = Kernel.start o r
  handle (Command.start_panics reached) = do
    modify (λ _. reached)
    _ ← attempt recover_after_worker_panic
    fail EngineError.remote
  handle Command.stop = Stop.stop o

  -- The state after the commands, their replies sent.
  unfoldable pub serve : List Command → Sys → Sys
  unfolding handle
  serve [] s = s
  serve (c ∷ cs) s = serve cs (handle c s).1

  -- The end of the loop, when the channel closes.
  unfoldable pub close : Action Unit
  unfolding Stop.stop shutdown_active_backend shutdown_cached_userspace_device
  close = do _ ← attempt (Stop.stop o); shutdown_active_backend o; shutdown_cached_userspace_device

  unfoldable pub run : List Command → Sys → Sys
  unfolding serve close
  run cs s = (close (serve cs s)).1
