-- ===== src/Engine/KernelSettles.antt =====
-- A start on the kernel settles.
use mathlib.Core.Logic.{inl, inr}
use native.Mathlib.Omega.{arith}
use r_wg.Base.{◌≡◌, refl, ap, Bool, true, false, ◌&&◌, is_some, if◌then◌else◌, Bool-cases}
use r_wg.Base.Result.{Result, ok, err}
use r_wg.Engine.{
  Sys, Oracle, Action, EngineError, StartRequest, quantum_enabled, network, ◌>>=◌, ◌>>◌, pure, when,
}
use r_wg.Engine.Kernel.{
  Outcome, roll_back, discard_kernel, guarded, after_raise, give_up, take_guard, refuse_upgrade,
  negotiate, upgrade_kernel_ephemeral, roll_back_upgrade, upgrade_under_guard, finish_kernel,
  after_network, with_guard, raise_guard, create_kernel, start_linux_kernel,
}
use r_wg.Engine.Post.{Post, Always, Post-if, Post-chain, Post-Always, Post-when}
use r_wg.Engine.Standings.{
  is_up, Idle, IdleIf, KernelSettled, GuardedIf, Networked, Unguarded, Raised, Failed,
}
use r_wg.Engine.Start.{KernelStartError, upgraded, apply_network_config}
use r_wg.Engine.Stop.{
  cleanup_active_network_state, delete_kernel, shutdown_active_backend,
  shutdown_cached_userspace_device,
}

module _ (o : Oracle) (b : Bool) where
  roll_back-Failed :
      (e : KernelStartError) (s : Sys) → Networked s → Post (Failed b) (roll_back o e) s
  unfolding roll_back discard_kernel cleanup_active_network_state delete_kernel
  roll_back-Failed e s h = ground arith

  upgrade_under_guard-Raised :
      (r : StartRequest) (s : Sys) → Networked s → Post (Raised b) (upgrade_under_guard o r) s
  unfolding upgrade_under_guard roll_back_upgrade take_guard upgrade_kernel_ephemeral refuse_upgrade
      negotiate upgraded roll_back discard_kernel cleanup_active_network_state delete_kernel
  upgrade_under_guard-Raised r s h = ground arith

  roll_back-Settled :
      (e : KernelStartError) (s : Sys)
      → Networked s
      → (b && is_up s.world.guard) ≡ false
      → Post (KernelSettled b) (roll_back o e) s
  unfolding roll_back discard_kernel cleanup_active_network_state delete_kernel
  roll_back-Settled e s h k = ground arith

  abbrev Lifted : Sys → Type 0
  Lifted s = Networked s × ((b && is_up s.world.guard) ≡ false)

  take_guard-Lifted :
      (q : Bool) (s : Sys) → Networked s → Unguarded b q s → Post (Always Lifted) (take_guard o q) s
  unfolding take_guard
  take_guard-Lifted true s h k = ground arith
  take_guard-Lifted false s h k = ground arith

  unmarked_lem :
      (q : Bool) (e : KernelStartError) (s : Sys)
      → Networked s
      → Unguarded b q s
      → Post (KernelSettled b) (take_guard o q >> roll_back o e) s
  unmarked_lem q e s h k =
      Post-Always (KernelSettled b) Lifted (take_guard o q) (λ _. roll_back o e) s
        (take_guard-Lifted q s h k) (λ _ t l. roll_back-Settled e t l.0 l.1)

  abbrev upgrade : StartRequest → Action Outcome
  upgrade r = if quantum_enabled r.quantum_mode then upgrade_under_guard o r else pure (ok tt)

  upgrade-Raised :
      (r : StartRequest) (s : Sys)
      → Networked s
      → Unguarded b (quantum_enabled r.quantum_mode) s
      → Post (Raised b) (upgrade r) s
  upgrade-Raised r s h k =
      Post-if (Raised b) (quantum_enabled r.quantum_mode) (upgrade_under_guard o r) (pure (ok tt)) s
        (λ _. upgrade_under_guard-Raised r s h) (λ e. (h, ground arith))

  finish_kernel-Settled :
      (r : StartRequest) (s : Sys) → Lifted s → Post (KernelSettled b) (finish_kernel o r) s
  unfolding finish_kernel
  finish_kernel-Settled r s h = ground arith

  abbrev after_upgrade : StartRequest → Outcome → Action Outcome
  after_upgrade r (ok a) = finish_kernel o r
  after_upgrade r (err e) = pure (err e)

  after_upgrade-Settled :
      (r : StartRequest) (outcome : Outcome) (s : Sys)
      → Raised b (ok outcome) s
      → Post (KernelSettled b) (after_upgrade r outcome) s
  after_upgrade-Settled r (ok a) s h = finish_kernel-Settled r s h
  after_upgrade-Settled r (err e) s h = h

  marked_lem :
      (r : StartRequest) (s : Sys)
      → Networked s
      → Unguarded b (quantum_enabled r.quantum_mode) s
      → Post (KernelSettled b) (upgrade r >>= after_upgrade r) s
  marked_lem r s h k =
      Post-chain (KernelSettled b) (Raised b) (upgrade r) (after_upgrade r) s
        (upgrade-Raised r s h k) (λ outcome t q. after_upgrade-Settled r outcome t q)
        (λ e t q. absurd q)

  after_network-Settled :
      (r : StartRequest) (s : Sys)
      → Networked s
      → Unguarded b (quantum_enabled r.quantum_mode) s
      → Post (KernelSettled b) (after_network o r) s
  unfolding after_network
  after_network-Settled r s h k = elim (Bool-cases (o.mark_running s.world.calls)) [
    | inl e ↦ rw e (marked_lem r _ h k)
    | inr e ↦ rw e (unmarked_lem (quantum_enabled r.quantum_mode) _ _ h k)
  ]

  -- A kernel interface may be up.
  abbrev Discardable : Sys → Type 0
  Discardable s =
      Idle s.state × ((b && is_up s.world.net) ≡ false) × ((b && is_up s.world.guard) ≡ false)

  discard_kernel-Settled :
      (e : EngineError) (s : Sys)
      → Discardable s
      → Post (KernelSettled b) (discard_kernel o >> give_up e) s
  unfolding discard_kernel delete_kernel
  discard_kernel-Settled e s h = ground arith

  take_guard-Discardable :
      (q : Bool) (s : Sys) → GuardedIf b q s → Post (Always Discardable) (take_guard o q) s
  unfolding take_guard
  take_guard-Discardable true s h = ground arith
  take_guard-Discardable false s h = ground arith

  unapplied_lem :
      (q : Bool) (s : Sys)
      → GuardedIf b q s
      → Post (KernelSettled b) (take_guard o q >> (discard_kernel o >> give_up network)) s
  unapplied_lem q s h =
      Post-Always (KernelSettled b) Discardable (take_guard o q)
        (λ _. discard_kernel o >> give_up network) s (take_guard-Discardable q s h)
        (λ _ t k. discard_kernel-Settled network t k)

  with_guard-Settled :
      (r : StartRequest) (s : Sys)
      → GuardedIf b (quantum_enabled r.quantum_mode) s
      → Post (KernelSettled b) (with_guard o r) s
  unfolding with_guard apply_network_config
  with_guard-Settled r s h = elim (Bool-cases (o.apply_network s.world.calls)) [
    | inl e ↦ rw e (after_network-Settled r _ (h.0.0, h.0.2, refl, refl, refl) h.2)
    | inr e ↦ rw e (unapplied_lem (quantum_enabled r.quantum_mode) _ h)
  ]

  -- A guard that is not raised is not up.
  abbrev GuardTried : Bool → Result EngineError Bool → Sys → Type 0
  GuardTried q (ok true) s = GuardedIf b q s
  GuardTried q (ok false) s = Discardable s
  GuardTried q (err e) s = ⊥

  raise_guard-GuardTried :
      (r : StartRequest) (s : Sys)
      → Discardable s
      → Post (GuardTried (quantum_enabled r.quantum_mode)) (raise_guard o r) s
  unfolding raise_guard
  raise_guard-GuardTried r s h = ground arith

  after_raise-Settled :
      (r : StartRequest) (raised : Bool) (s : Sys)
      → GuardTried (quantum_enabled r.quantum_mode) (ok raised) s
      → Post (KernelSettled b) (after_raise o r raised) s
  after_raise-Settled r true s h = with_guard-Settled r s h
  after_raise-Settled r false s h = discard_kernel-Settled network s h

  guarded-Settled :
      (r : StartRequest) (s : Sys) → Discardable s → Post (KernelSettled b) (guarded o r) s
  unfolding guarded
  guarded-Settled r s h =
      Post-chain (KernelSettled b) (GuardTried (quantum_enabled r.quantum_mode)) (raise_guard o r)
        (after_raise o r) s (raise_guard-GuardTried r s h)
        (λ raised t k. after_raise-Settled r raised t k) (λ e t k. absurd k)

  create_kernel-Settled :
      (r : StartRequest) (s : Sys) → IdleIf b s → Post (KernelSettled b) (create_kernel o r) s
  unfolding create_kernel
  create_kernel-Settled r s h = elim (Bool-cases (o.start_kernel s.world.calls)) [
    | inl e ↦ rw e (guarded-Settled r _ (h.0, h.1.0, h.1.2))
    | inr e ↦ rw e h
  ]

  pub start_linux_kernel-Settled :
      (r : StartRequest) (s : Sys) → IdleIf b s → Post (KernelSettled b) (start_linux_kernel o r) s
  unfolding start_linux_kernel shutdown_cached_userspace_device
  start_linux_kernel-Settled r s h =
      Post-Always (KernelSettled b) (IdleIf b)
        (when (is_some s.state.active_backend) (shutdown_active_backend o))
        (λ _. shutdown_cached_userspace_device >> create_kernel o r) s
        (Post-when (IdleIf b) (is_some s.state.active_backend) (shutdown_active_backend o) s
          (ap is_some h.0.2) h)
        (λ _ t k. create_kernel-Settled r _ k)
