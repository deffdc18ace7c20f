-- ===== src/Engine/Stops.antt =====
-- What a stop leaves, and what holds between the commands.
use mathlib.Core.Path.{◌≡◌, refl, sym, subst}
use mathlib.Core.List.{List, [], ◌∷◌}
use mathlib.Core.Logic.{inl, inr}
use native.Mathlib.Omega.{arith}
use Prim.Native.String.{String}
use r_wg.Base.{true, false, none, some, Bool-cases}
use r_wg.Base.Result.{Result, ok, err}
use r_wg.Engine.{
  EngineState, Sys, Oracle, ActiveBackend, EngineError, StartRequest, already_running, not_running,
  fail,
}
use r_wg.Engine.Stop.{
  cleanup_active_network_state, clear_slot_peers, delete_kernel, stop_backend, stop_active_backend,
  after_cleanup, stop, shutdown_backend, shutdown_active_backend, shutdown_cached_userspace_device,
}
use r_wg.Engine.Kernel.{start}
use r_wg.Engine.Runner.{Command, recover_after_worker_panic, handle, serve}
use r_wg.Engine.Settles.{start_lem}
use r_wg.Engine.Standings.{Known, SettledIf}
use r_wg.Engine.Post.{Post, Post-if}

-- A worker that is not running holds no network state.
abbrev pub Consistent : EngineState → Type 0
Consistent s = s.running ≡ false → s.net_state ≡ none

-- Everything that a start sets is cleared.
abbrev pub Cleared : EngineState → Type 0
Cleared s =
    (s.running ≡ false)
    × (s.net_state ≡ none)
    × (s.active_backend ≡ none)
    × (s.route_apply_report ≡ none)
    × (s.quantum_active ≡ false)
    × (s.daita_active ≡ false)
    × (s.ephemeral_key_active ≡ false)

abbrev pub Stopped : Result EngineError Unit → EngineState → Type 0
Stopped (ok _) s = Cleared s
Stopped (err _) s = s.net_state ≡ none

abbrev StoppedAt : Result EngineError Unit → Sys → Type 0
StoppedAt r s = Stopped r s.state

pub Stopped-net : (r : Result EngineError Unit) (s : EngineState) → Stopped r s → s.net_state ≡ none
Stopped-net (ok _) s h = h.1
Stopped-net (err _) s h = h

Settled-Consistent :
    (r : Result EngineError Unit) (s : Sys) → SettledIf false r s → Consistent s.state
Settled-Consistent (ok _) s h = λ e. absurd (cc)
Settled-Consistent (err _) s h = λ _. h.0.1

module _ (o : Oracle) where
  stop_any : (s : Sys) → s.state.running ≡ true → Post StoppedAt (stop o) s
  unfolding stop after_cleanup cleanup_active_network_state stop_active_backend stop_backend
      clear_slot_peers delete_kernel
  stop_any s h = ground arith

  -- A stop of a running worker leaves no network state. When it succeeds, it also leaves no
  -- backend, no apply report and no mode of the tunnel, and the worker is not running.
  pub stop-Stopped : (s : Sys) → s.state.running ≡ true → Stopped (stop o s).0 (stop o s).1.state
  stop-Stopped s h = stop_any s h

  stop_refused :
      (s : Sys) → s.state.running ≡ false → Consistent s.state → Consistent (stop o s).1.state
  unfolding stop
  stop_refused s e h =
      Post-if (λ _ t. Consistent t.state) s.state.running (_) (fail not_running) s
        (λ k. absurd (cc)) (λ _. h)

  stop-Consistent : (s : Sys) → Consistent s.state → Consistent (stop o s).1.state
  stop-Consistent s h = elim (Bool-cases s.state.running) [
    | inl e ↦ λ _. Stopped-net (stop o s).0 (stop o s).1.state (stop-Stopped s e)
    | inr e ↦ stop_refused s e h
  ]

  recover_lem :
      (s : Sys)
      → ((recover_after_worker_panic o s).1.state.net_state ≡ none)
        × ((recover_after_worker_panic o s).1.state.running ≡ false)
  unfolding recover_after_worker_panic cleanup_active_network_state shutdown_active_backend
      shutdown_backend delete_kernel shutdown_cached_userspace_device
  recover_lem s = ground arith

  start_refused :
      (r : StartRequest) (s : Sys) → s.state.running ≡ true → (start o r s).1.state ≡ s.state
  unfolding start
  start_refused r s e =
      Post-if (λ _ t. t.state ≡ s.state) s.state.running (fail already_running) (_) s (λ _. refl)
        (λ k. absurd (cc))

  start-Consistent :
      (r : StartRequest) (s : Sys) → Consistent s.state → Consistent (start o r s).1.state
  start-Consistent r s h = elim (Bool-cases s.state.running) [
    | inl e ↦ subst (λ t. Consistent t) (sym (start_refused r s e)) h
    | inr e ↦
        Settled-Consistent (start o r s).0 (start o r s).1
          (start_lem o false r s e (h e) (refl, refl, refl))
  ]

  pub handle-Consistent :
      (c : Command) (s : Sys) → Consistent s.state → Consistent (handle o c s).1.state
  unfolding handle
  handle-Consistent (Command.start r) s h = start-Consistent r s h
  handle-Consistent (Command.start_panics t) s h = λ _. (recover_lem (record s { state = t })).0
  handle-Consistent Command.stop s h = stop-Consistent s h

  -- If a worker that is not running holds no network state, the same holds after any sequence of
  -- starts, of starts that panic in any state, and of stops, whatever the calls out of the engine
  -- return.
  pub serve-Consistent :
      (cs : List Command) (s : Sys) → Consistent s.state → Consistent (serve o cs s).state
  unfolding serve
  serve-Consistent [] s h = h
  serve-Consistent (c ∷ cs) s h = serve-Consistent cs (handle o c s).1 (handle-Consistent c s h)

  pub stop-Known : (s : Sys) → Known s → Known (stop o s).1
  unfolding stop after_cleanup cleanup_active_network_state stop_active_backend stop_backend
      clear_slot_peers delete_kernel
  stop-Known s k = ground arith

module _ (o : Oracle) where
  -- When a worker that runs on a userspace device is stopped with an ephemeral key in use, the
  -- device kept for the next start is the one kept before the stop. Without such a key, a stop
  -- that succeeds keeps the device that ran.
  pub stop-cached_userspace_device :
      (s : Sys) (slot : String)
      → s.state.running ≡ true
      → s.state.active_backend ≡ some (ActiveBackend.userspace slot)
      → (s.state.ephemeral_key_active ≡ true
          → (stop o s).1.state.cached_userspace_device ≡ s.state.cached_userspace_device)
        × (s.state.ephemeral_key_active ≡ false
            → (stop o s).0 ≡ ok tt
            → (stop o s).1.state.cached_userspace_device ≡ some slot)
  unfolding stop after_cleanup cleanup_active_network_state stop_active_backend stop_backend
      clear_slot_peers delete_kernel
  stop-cached_userspace_device s slot h k = (λ e. ground arith, λ e f. ground arith)
