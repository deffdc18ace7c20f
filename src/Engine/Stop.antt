-- ===== src/Engine/Stop.antt =====
-- src/backend/wg/engine/stop_pipeline.rs
use Prim.Native.String.{String}
use r_wg.Base.{Bool, Option, none, some, if◌then◌else◌}
use r_wg.Base.Result.{Result, ok, err}
use r_wg.Engine.{
  EngineState, World, Oracle, ActiveBackend, Action, EngineError, not_running, device, network,
  kernel_wireguard, ◌>>=◌, ◌>>◌, pure, fail, attempt, get_state, modify, call, remove, Standing,
  clear_flags,
}

abbrev net_to : Standing → World → World
net_to standing w = record w { net = standing }

abbrev kernel_to : Standing → World → World
kernel_to standing w = record w { kernel_device = standing }

abbrev same : World → World
same w = w

module _ (o : Oracle) where
  -- `self.net_state.take()`, and the rollback of what it held.
  unfoldable pub cleanup_active_network_state : Action Unit
  cleanup_active_network_state = do
    s ← get_state
    modify (λ s. record s { net_state = none })
    elim s.net_state [
      | none ↦ pure tt
      | some _ ↦ do done ← remove o.cleanup_network net_to; if done then pure tt else fail network
    ]

  -- `clear_userspace_slot_peers`
  unfoldable pub clear_slot_peers : Action Unit
  clear_slot_peers = do done ← call o.clear_peers same; if done then pure tt else fail device

  unfoldable pub cache_cleared_userspace_slot : String → Action Unit
  unfolding clear_slot_peers
  cache_cleared_userspace_slot slot = do
    cleared ← attempt clear_slot_peers
    elim cleared [
      | err _ ↦ pure tt
      | ok _ ↦ modify (λ s. record s { cached_userspace_device = some slot })
    ]

  -- The interface is deleted, and then its journal.
  unfoldable pub delete_kernel : Action Bool
  delete_kernel = remove o.delete_kernel kernel_to

  unfoldable pub stop_backend : Bool → ActiveBackend → Action Unit
  unfolding clear_slot_peers delete_kernel
  stop_backend ephemeral (ActiveBackend.userspace slot) =
      if ephemeral
      then pure tt
      else do clear_slot_peers; modify (λ s. record s { cached_userspace_device = some slot })
  stop_backend ephemeral (ActiveBackend.kernel tun) = do
    deleted ← delete_kernel
    if deleted
        then (do
          cleared ← call o.clear_journal same
          if cleared then pure tt else fail kernel_wireguard)
        else (do
          modify (λ s. record s { active_backend = some (ActiveBackend.kernel tun) })
          fail kernel_wireguard)

  unfoldable pub stop_active_backend : Action Unit
  unfolding stop_backend
  stop_active_backend = do
    s ← get_state
    modify (λ s. record s { active_backend = none })
    elim s.active_backend [ none ↦ pure tt | some b ↦ stop_backend s.ephemeral_key_active b ]

  abbrev pub clear_all : EngineState → EngineState
  clear_all s = clear_flags (record s { route_apply_report = none })

  unfoldable pub after_cleanup : Result EngineError Unit → Action Unit
  unfolding stop_active_backend
  after_cleanup cleanup = do
    stopped ← attempt stop_active_backend
    elim stopped [
      | err e ↦ elim cleanup [ ok _ ↦ modify clear_all >> fail e | err _ ↦ fail e ]
      | ok _ ↦ modify clear_all >> (λ s. (cleanup, s))
    ]

  unfoldable pub stop : Action Unit
  unfolding after_cleanup cleanup_active_network_state
  stop = do
    s ← get_state
    if s.running
        then (do cleanup ← attempt cleanup_active_network_state; after_cleanup cleanup)
        else fail not_running

  unfoldable pub shutdown_backend : Option ActiveBackend → Action Unit
  unfolding delete_kernel
  shutdown_backend none = pure tt
  shutdown_backend (some (ActiveBackend.userspace slot)) = pure tt
  shutdown_backend (some (ActiveBackend.kernel tun)) = do
    deleted ← delete_kernel
    if deleted then (do _ ← call o.clear_journal same; pure tt) else pure tt

  unfoldable pub shutdown_active_backend : Action Unit
  unfolding shutdown_backend
  shutdown_active_backend = do
    s ← get_state
    modify (λ s. record s { active_backend = none })
    shutdown_backend s.active_backend
    modify (λ s. record (clear_flags s) { net_state = none; route_apply_report = none })

unfoldable pub shutdown_cached_userspace_device : Action Unit
shutdown_cached_userspace_device = modify (λ s. record s { cached_userspace_device = none })
