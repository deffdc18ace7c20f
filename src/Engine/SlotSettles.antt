-- ===== src/Engine/SlotSettles.antt =====
-- A start on a userspace device settles.
use Prim.Native.String.{String}
use mathlib.Core.Logic.{inl, inr}
use native.Mathlib.Omega.{arith}
use r_wg.Base.{refl, ap, Bool, true, false, ◌||◌, is_some, if◌then◌else◌, Bool-cases, Option-cases}
use r_wg.Base.Result.{Result, ok, err}
use r_wg.Engine.{
  Sys, Oracle, Action, EngineError, StartRequest, quantum_enabled, daita_enabled, network, device,
  ◌>>=◌, ◌>>◌, pure, fail, attempt, call, when,
}
use r_wg.Engine.Post.{Post, Always, Post-if, Post-chain, Post-Always, Post-when}
use r_wg.Engine.Standings.{IdleIf, SettledIf, Slotted, RaisedSlot, counted}
use r_wg.Engine.Start.{
  upgraded, remember_failure, apply_network_config, upgrade_userspace_ephemeral,
  recover_userspace_slot, finish_userspace, upgrade_or_roll_back, run_slot, raise_slot,
  give_up_slot, network_slot, same, after_create_tun, take_slot, drop_other_slot,
  start_userspace_gotatun,
}
use r_wg.Engine.Stop.{
  cleanup_active_network_state, clear_slot_peers, cache_cleared_userspace_slot,
  shutdown_active_backend, shutdown_cached_userspace_device,
}

module _ (o : Oracle) (b : Bool) where
  abbrev SlottedStill : Result EngineError Unit → Sys → Type 0
  SlottedStill r s = Slotted b s

  upgrade-Slotted :
      (r : StartRequest) (s : Sys)
      → Slotted b s
      → Post SlottedStill (upgrade_userspace_ephemeral o r) s
  unfolding upgrade_userspace_ephemeral remember_failure upgraded
  upgrade-Slotted r s h = ground arith

  cleanup-Idle :
      (s : Sys)
      → Slotted b s
      → Post (Always (IdleIf b)) (attempt (cleanup_active_network_state o)) s
  unfolding cleanup_active_network_state
  cleanup-Idle s h = ground arith

  recover-Idle :
      (slot : String) (new : Bool) (s : Sys)
      → IdleIf b s
      → Post (Always (IdleIf b)) (recover_userspace_slot o slot new) s
  unfolding recover_userspace_slot cache_cleared_userspace_slot clear_slot_peers
  recover-Idle slot true s h = h
  recover-Idle slot false s h = ground arith

  abbrev failed_by : EngineError → Result EngineError Unit → Action Unit
  failed_by error (ok a) = fail error
  failed_by error (err e) = fail e

  failed_by-Idle :
      (error : EngineError) (cleanup : Result EngineError Unit) (s : Sys)
      → IdleIf b s
      → Post (RaisedSlot b) (failed_by error cleanup) s
  failed_by-Idle error (ok a) s h = h
  failed_by-Idle error (err e) s h = h

  undo_lem :
      (error : EngineError) (slot : String) (new : Bool) (s : Sys)
      → Slotted b s
      → Post
          (RaisedSlot b)
          (attempt (cleanup_active_network_state o) >>= λ cleanup.
            (recover_userspace_slot o slot new >> failed_by error cleanup))
          s
  undo_lem error slot new s h =
      Post-Always (RaisedSlot b) (IdleIf b) (attempt (cleanup_active_network_state o))
        (λ cleanup. (recover_userspace_slot o slot new >> failed_by error cleanup)) s
        (cleanup-Idle s h)
        (λ cleanup t k.
          Post-Always (RaisedSlot b) (IdleIf b) (recover_userspace_slot o slot new)
            (λ _. failed_by error cleanup) t (recover-Idle slot new t k)
            (λ _ u q. failed_by-Idle error cleanup u q))

  abbrev or_undo : String → Bool → Result EngineError Unit → Action Unit
  or_undo slot new (ok a) = pure tt
  or_undo slot new (err error) = attempt (cleanup_active_network_state o) >>= λ cleanup.
      (recover_userspace_slot o slot new >> failed_by error cleanup)

  or_undo_lem :
      (slot : String) (new : Bool) (outcome : Result EngineError Unit) (s : Sys)
      → Slotted b s
      → Post (RaisedSlot b) (or_undo slot new outcome) s
  or_undo_lem slot new (ok a) s h = h
  or_undo_lem slot new (err error) s h = undo_lem error slot new s h

  upgrade_or_roll_back-Settled :
      (r : StartRequest) (slot : String) (new : Bool) (s : Sys)
      → Slotted b s
      → Post (RaisedSlot b) (upgrade_or_roll_back o r slot new) s
  unfolding upgrade_or_roll_back
  upgrade_or_roll_back-Settled r slot new s h =
      or_undo_lem slot new (upgrade_userspace_ephemeral o r s).0
        (upgrade_userspace_ephemeral o r s).1 (upgrade-Slotted r s h)

  finish_userspace-Settled :
      (slot : String) (s : Sys) → Slotted b s → Post (SettledIf b) (finish_userspace o slot) s
  unfolding finish_userspace
  finish_userspace-Settled slot s h = ground arith

  raise_slot-Settled :
      (r : StartRequest) (slot : String) (new : Bool) (s : Sys)
      → Slotted b s
      → Post (SettledIf b) (raise_slot o r slot new) s
  unfolding raise_slot finish_userspace
  raise_slot-Settled r slot new s h =
      Post-chain (SettledIf b) (RaisedSlot b)
        (if quantum_enabled r.quantum_mode || daita_enabled r.daita_mode
          then upgrade_or_roll_back o r slot new
          else pure tt)
        (λ _. finish_userspace o slot) s
        (Post-if (RaisedSlot b) (quantum_enabled r.quantum_mode || daita_enabled r.daita_mode)
          (upgrade_or_roll_back o r slot new) (pure tt) s
          (λ _. upgrade_or_roll_back-Settled r slot new s h) (λ _. h))
        (λ a t q. finish_userspace-Settled slot t q) (λ e t q. q)

  give_up_slot-Settled :
      (slot : String) (new : Bool) (e : EngineError) (s : Sys)
      → IdleIf b s
      → Post (SettledIf b) (give_up_slot o slot new e) s
  unfolding give_up_slot recover_userspace_slot cache_cleared_userspace_slot clear_slot_peers
  give_up_slot-Settled slot true e s h = h
  give_up_slot-Settled slot false e s h = ground arith

  network_slot-Settled :
      (r : StartRequest) (slot : String) (new : Bool) (s : Sys)
      → IdleIf b s
      → Post (SettledIf b) (network_slot o r slot new) s
  unfolding network_slot apply_network_config
  network_slot-Settled r slot new s h = elim (Bool-cases (o.apply_network s.world.calls)) [
    | inl e ↦
        rw e (raise_slot-Settled r slot new _ ((h.0.0, h.0.2, refl, refl, refl), h.1.1, h.1.2))
    | inr e ↦ rw e (give_up_slot-Settled slot new network _ h)
  ]

  run_slot-Settled :
      (r : StartRequest) (slot : String) (new : Bool) (s : Sys)
      → IdleIf b s
      → Post (SettledIf b) (run_slot o r slot new) s
  unfolding run_slot
  run_slot-Settled r slot new s h = elim (Bool-cases (o.configure s.world.calls)) [
    | inl e ↦ rw e (network_slot-Settled r slot new (counted s) h)
    | inr e ↦ rw e (give_up_slot-Settled slot new device (counted s) h)
  ]

  create_tun_lem :
      (r : StartRequest) (s : Sys)
      → IdleIf b s
      → Post (SettledIf b) (call o.create_tun same >>= after_create_tun o r) s
  create_tun_lem r s h = elim (Bool-cases (o.create_tun s.world.calls)) [
    | inl e ↦ rw e (run_slot-Settled r r.tun_name true (counted s) h)
    | inr e ↦ rw e h
  ]

  take_slot-Settled :
      (r : StartRequest) (s : Sys) → IdleIf b s → Post (SettledIf b) (take_slot o r) s
  unfolding take_slot
  take_slot-Settled r s h = elim (Option-cases s.state.cached_userspace_device) [
    | inl e ↦ rw e (create_tun_lem r _ h)
    | inr (slot, e) ↦ rw e (run_slot-Settled r slot false _ h)
  ]

  drop_other_slot-Idle :
      (r : StartRequest) (s : Sys) → IdleIf b s → Post (Always (IdleIf b)) (drop_other_slot o r) s
  unfolding drop_other_slot shutdown_cached_userspace_device
  drop_other_slot-Idle r s h = ground arith

  slots_lem :
      (r : StartRequest) (s : Sys)
      → IdleIf b s
      → Post (SettledIf b) (drop_other_slot o r >> take_slot o r) s
  slots_lem r s h =
      Post-Always (SettledIf b) (IdleIf b) (drop_other_slot o r) (λ _. take_slot o r) s
        (drop_other_slot-Idle r s h) (λ _ t k. take_slot-Settled r t k)

  pub start_userspace-Settled :
      (r : StartRequest) (s : Sys) → IdleIf b s → Post (SettledIf b) (start_userspace_gotatun o r) s
  unfolding start_userspace_gotatun
  start_userspace-Settled r s h =
      Post-Always (SettledIf b) (IdleIf b)
        (when (is_some s.state.active_backend) (shutdown_active_backend o))
        (λ _. drop_other_slot o r >> take_slot o r) s
        (Post-when (IdleIf b) (is_some s.state.active_backend) (shutdown_active_backend o) s
          (ap is_some h.0.2) h)
        (λ _ t k. slots_lem r t k)
