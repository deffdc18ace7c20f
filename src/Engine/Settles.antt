-- ===== src/Engine/Settles.antt =====
-- A start settles: it brings everything up, or takes everything down again.
use native.Mathlib.Omega.{arith}
use r_wg.Base.{◌≡◌, Bool, true, false, none}
use r_wg.Base.Result.{Result, ok, err}
use r_wg.Engine.{
  Standing, Sys, Oracle, EngineError, StartRequest, BackendDecision, already_running, ◌>>◌, fail,
}
use r_wg.Engine.Kernel.{
  Outcome, start_linux_kernel, falls_back, after_kernel, clear_start, decision, decide,
  start_backend, prepare, start_stopped, start,
}
use r_wg.Engine.KernelSettles.{start_linux_kernel-Settled}
use r_wg.Engine.Post.{Post, Always, Post-if, Post-chain, Post-Always}
use r_wg.Engine.SlotSettles.{start_userspace-Settled}
use r_wg.Engine.Standings.{Idle, IsUp, NoneUp, Known, KnownIf, IdleIf, SettledIf, KernelSettled}
use r_wg.Engine.Start.{into_engine_error, start_userspace_gotatun}
use r_wg.Engine.Stop.{delete_kernel, shutdown_backend, shutdown_active_backend}

-- After a success everything that is up is known and the network configuration is up; after a
-- failure nothing is up.
abbrev pub Settled : Result EngineError Unit → Sys → Type 0
Settled (ok _) s = IsUp s.state × (s.world.net ≡ Standing.up) × Known s
Settled (err _) s = Idle s.state × NoneUp s.world

module _ (o : Oracle) (b : Bool) where
  after_kernel-Settled :
      (r : StartRequest) (outcome : Outcome) (s : Sys)
      → KernelSettled b (ok outcome) s
      → Post (SettledIf b) (after_kernel o r outcome) s
  after_kernel-Settled r (ok _) s q = q
  after_kernel-Settled r (err e) s q =
      Post-if (SettledIf b) (falls_back o r.preference e) (start_userspace_gotatun o r)
        (fail (into_engine_error e)) s (λ _. start_userspace-Settled o b r s q) (λ _. q)

  clear_start-Idle :
      (s : Sys)
      → s.state.running ≡ false
      → s.state.net_state ≡ none
      → KnownIf b s
      → Post (Always (IdleIf b)) (clear_start o) s
  unfolding clear_start shutdown_active_backend shutdown_backend delete_kernel
  clear_start-Idle s h k w = ground arith

  start_backend-Settled :
      (r : StartRequest) (d : BackendDecision) (s : Sys)
      → IdleIf b s
      → Post (SettledIf b) (start_backend o r d) s
  unfolding start_backend
  start_backend-Settled r BackendDecision.userspace_gotatun s h = start_userspace-Settled o b r s h
  start_backend-Settled r BackendDecision.linux_kernel s h =
      Post-chain (SettledIf b) (KernelSettled b) (start_linux_kernel o r) (after_kernel o r) s
        (start_linux_kernel-Settled o b r s h) (after_kernel-Settled r) (λ e t q. q)

  prepare-Idle : (r : StartRequest) (s : Sys) → IdleIf b s → Post (λ _. IdleIf b) (prepare o r) s
  unfolding prepare
  prepare-Idle r s h = ground arith

  after_decision-Settled :
      (r : StartRequest) (d : BackendDecision) (s : Sys)
      → IdleIf b s
      → Post (SettledIf b) (prepare o r >> start_backend o r d) s
  after_decision-Settled r d s h =
      Post-chain (SettledIf b) (λ _. IdleIf b) (prepare o r) (λ _. start_backend o r d) s
        (prepare-Idle r s h) (λ _ t q. start_backend-Settled r d t q) (λ e t q. q)

  decide-Settled : (r : StartRequest) (s : Sys) → IdleIf b s → Post (SettledIf b) (decide o r) s
  unfolding decide
  decide-Settled r s h =
      Post-chain (SettledIf b) (λ _. IdleIf b) (decision o r)
        (λ d. prepare o r >> start_backend o r d) s h (λ d t q. after_decision-Settled r d t q)
        (λ e t q. q)

  pub start_lem :
      (r : StartRequest) (s : Sys)
      → s.state.running ≡ false
      → s.state.net_state ≡ none
      → KnownIf b s
      → Post (SettledIf b) (start o r) s
  unfolding start start_stopped
  start_lem r s h k w =
      Post-if (SettledIf b) s.state.running (fail already_running) (start_stopped o r) s
        (λ e. absurd (cc))
        (λ _.
          Post-Always (SettledIf b) (IdleIf b) (clear_start o) (λ _. decide o r) s
            (clear_start-Idle s h k w) (λ _ t q. decide-Settled r t q))

settled_lem : (r : Result EngineError Unit) (s : Sys) → SettledIf true r s → Settled r s
settled_lem (ok a) s h = h
settled_lem (err e) s h = h

pub start-Settled :
    (o : Oracle) (r : StartRequest) (s : Sys)
    → s.state.running ≡ false
    → s.state.net_state ≡ none
    → Known s
    → Settled (start o r s).0 (start o r s).1
start-Settled o r s h k w = settled_lem (start o r s).0 (start o r s).1 (start_lem o true r s h k w)
