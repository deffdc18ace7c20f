-- ===== src/Linux/Safe.antt =====
-- An apply that stops anywhere leaves a journal from which the repair can work.
use r_wg.Base.{◌≡◌, refl, Bool, Option}
use r_wg.Base.Result.{Result, ok, err}
use r_wg.Config.{Text, WireGuardConfig}
use r_wg.Linux.Apply.{plan_result, plan_step, apply_planned, apply_network_config}
use r_wg.Linux.Covered.{FitsPlan, Ends-apply_planned}
use r_wg.Linux.Ends.{Ends, Ends-chain, Ends-keeps, Ends-after, Post-same}
use r_wg.Linux.Fits.{build_apply_plan-FitsPlan}
use r_wg.Linux.Journaled.{Repairable, Bare, Bare-Repairable, Journaled-Repairable}
use r_wg.Linux.Keeps.{Keeps-edit_report, Keeps-get_sys}
use r_wg.Linux.Machine.{Oracle, Sys, after}
use r_wg.Linux.Plan.{LinuxApplyPlan, NetworkApplyError, build_apply_plan}
use r_wg.Net.{IpAddr}
use r_wg.RoutePlan.{RoutePlanPlatform, Plan}
use r_wg.RoutePlan.Planner.{build}

module _ (plan : Plan) where
  result_lem :
      (r : Result NetworkApplyError LinuxApplyPlan)
      → ((p : LinuxApplyPlan) → r ≡ ok p → FitsPlan plan p)
      → Ends Bare (plan_result r) (λ p m. Bare m × FitsPlan plan p) Repairable
  result_lem (ok p) h = record { ends = λ s b. (b, h p refl) }
  result_lem (err e) h = record { ends = λ s b. Bare-Repairable s.machine b }

  given_lem :
      (o : Oracle) (show_ip : IpAddr → Text) (c : WireGuardConfig) (enabled : Bool)
      (p : LinuxApplyPlan)
      → Ends
          (λ m. Bare m × FitsPlan plan p)
          (apply_planned o show_ip c.interface plan enabled p)
          (λ _. Repairable)
          Repairable
  given_lem o show_ip c enabled p = record {
    ends = λ s h.
        (Ends-after (λ a m j. Journaled-Repairable plan p.policy m j)
            (Ends-apply_planned o show_ip plan c.interface p enabled h.1)).ends
          s h.0;
  }

module _ (parse_ip : Text → Option IpAddr) (show_ip : IpAddr → Text) (o : Oracle)
    (c : WireGuardConfig) (enabled : Bool) where
  plan_step_lem :
      Ends Bare
        (plan_step c (build parse_ip RoutePlanPlatform.linux c))
        (λ p m. Bare m × FitsPlan (build parse_ip RoutePlanPlatform.linux c) p)
        Repairable
  unfolding plan_step
  plan_step_lem = Ends-chain (Ends-keeps Keeps-get_sys Bare-Repairable) (λ s.
      result_lem (build parse_ip RoutePlanPlatform.linux c)
        (build_apply_plan c (build parse_ip RoutePlanPlatform.linux c) s.report)
        (build_apply_plan-FitsPlan parse_ip c s.report))

  apply_lem :
      Ends Bare
        (apply_network_config o show_ip c (build parse_ip RoutePlanPlatform.linux c) enabled)
        (λ _. Repairable)
        Repairable
  unfolding apply_network_config plan_step
  apply_lem = Ends-chain (Ends-keeps (Keeps-edit_report _) Bare-Repairable) (λ _.
      Ends-chain plan_step_lem
        (λ p. given_lem (build parse_ip RoutePlanPlatform.linux c) o show_ip c enabled p))

  -- Whatever the calls of an apply return, and wherever among them the process crashes, the journal
  -- on disk names every route and every policy rule of the machine afterwards, if there were none
  -- before.
  pub apply_network_config-Repairable :
      (s : Sys)
      → Bare s.machine
      → Repairable (
          after
            (apply_network_config o show_ip c (build parse_ip RoutePlanPlatform.linux c) enabled)
            s)
  apply_network_config-Repairable s h =
      Post-same Repairable
        (apply_network_config o show_ip c (build parse_ip RoutePlanPlatform.linux c) enabled s).0 _
        (apply_lem.ends s h)
