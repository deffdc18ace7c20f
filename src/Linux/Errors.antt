-- ===== src/Linux/Errors.antt =====
-- When no plan of the Linux apply can be made.
use r_wg.Base.{
  ℕ, ◌≡◌, refl, sym, ap, subst, ◌∙◌, Bool, true, false, not, ◌||◌, Option, none, some,
  if◌then◌else◌, inl, inr,
}
use r_wg.Base.Result.{ok, err, Result-cases}
use r_wg.Config.{Text, WireGuardConfig}
use r_wg.Dns.{DnsSelection}
use r_wg.Linux.{missing_fwmark}
use r_wg.Linux.Plan.{
  LinuxApplyPlan, NetworkApplyError, allowed_ops, with_fwmark, no_fwmark, resolve_policy_state,
  plan_with, build_apply_plan,
}
use r_wg.Net.{IpAddr}
use r_wg.Report.{RouteApplyReport}
use r_wg.RoutePlan.{RoutePlanPlatform, FullTunnelStatus, Plan, any_family, table_is_off}
use r_wg.RoutePlan.Collect.{detect_full_tunnel_lem}
use r_wg.RoutePlan.Normalize.{
  wants_full_tunnel, normalize_config_for_runtime, collect_allowed_routes, detect_full_tunnel,
  fill_fwmark,
}
use r_wg.RoutePlan.Planner.{build}

-- The refusal of a full tunnel without a mark.
abbrev pub Refuses : WireGuardConfig → Plan → RouteApplyReport → NetworkApplyError → Type 0
Refuses c plan r e =
    (table_is_off c.interface.table ≡ false)
    × (any_family plan.full_tunnel ≡ true)
    × (c.interface.fwmark ≡ none)
    × (e.error ≡ missing_fwmark)
    × (e.report ≡ no_fwmark r)

with_fwmark_lem :
    (full : FullTunnelStatus) (t : ℕ) (r : RouteApplyReport) (mark : Option ℕ)
    (e : NetworkApplyError) (plan : Plan)
    → plan_with plan (with_fwmark full t r mark) ≡ err e
    → (mark ≡ none) × (e.error ≡ missing_fwmark) × (e.report ≡ no_fwmark r)
unfolding allowed_ops no_fwmark
with_fwmark_lem full t r none e plan h =
    let k : record { error = missing_fwmark; report = no_fwmark r } ≡ e = cc h in
    (
      refl,
      ap (λ (x : NetworkApplyError). x.error) (sym k),
      ap (λ (x : NetworkApplyError). x.report) (sym k),
    )
with_fwmark_lem full t r (some m) e plan h = absurd (cc)

refuses_lem :
    (off full : Bool) (f : FullTunnelStatus) (t : ℕ) (r : RouteApplyReport) (mark : Option ℕ)
    (e : NetworkApplyError) (plan : Plan)
    → plan_with plan (if off || not full then ok none else with_fwmark f t r mark) ≡ err e
    → (off ≡ false)
      × (full ≡ true)
      × (mark ≡ none)
      × (e.error ≡ missing_fwmark)
      × (e.report ≡ no_fwmark r)
unfolding allowed_ops no_fwmark
refuses_lem true full f t r mark e plan h = absurd (cc)
refuses_lem false false f t r mark e plan h = absurd (cc)
refuses_lem false true f t r mark e plan h =
    let k = with_fwmark_lem f t r mark e plan h in (refl, refl, k.0, k.1, k.2)

-- A plan of the apply is refused only for a full tunnel without a mark, in a table that is not off.
build_apply_plan-Refuses :
    (c : WireGuardConfig) (plan : Plan) (r : RouteApplyReport) (e : NetworkApplyError)
    → build_apply_plan c plan r ≡ err e
    → Refuses c plan r e
unfolding build_apply_plan resolve_policy_state
build_apply_plan-Refuses c plan r e h =
    refuses_lem (table_is_off c.interface.table) (any_family plan.full_tunnel) plan.full_tunnel _ r
      c.interface.fwmark e plan h

fill_fwmark_lem : (mark : Option ℕ) → fill_fwmark true mark ≡ none → true ≡ false
fill_fwmark_lem none h = cc h
fill_fwmark_lem (some m) h = cc h

module _ (parse_ip : Text → Option IpAddr) (c : WireGuardConfig) (selection : DnsSelection) where
  normalized_lem :
      any_family (detect_full_tunnel (collect_allowed_routes c.peers)) ≡ true
      → fill_fwmark (wants_full_tunnel c.peers) c.interface.fwmark ≡ none
      → true ≡ false
  normalized_lem f h = fill_fwmark_lem c.interface.fwmark (
      subst (λ b. fill_fwmark b c.interface.fwmark ≡ none)
        (sym (detect_full_tunnel_lem c.peers).2 ∙ f) h)

  -- A configuration that was normalized for the start, whatever its mark and its table are, always
  -- has a plan of the apply for its route plan.
  pub build_apply_plan-normalize_config_for_runtime :
      (r : RouteApplyReport)
      → (p : LinuxApplyPlan) × (build_apply_plan
            (normalize_config_for_runtime c selection)
            (build parse_ip RoutePlanPlatform.linux (normalize_config_for_runtime c selection))
            r
          ≡ ok p)
  unfolding build normalize_config_for_runtime
  build_apply_plan-normalize_config_for_runtime r =
      let n = normalize_config_for_runtime c selection in
      elim (Result-cases (build_apply_plan n (build parse_ip RoutePlanPlatform.linux n) r)) [
        | inl h ↦ h
        | inr h ↦
            let k =
              build_apply_plan-Refuses n (build parse_ip RoutePlanPlatform.linux n) r h.0 h.1 in
            absurd (cc (normalized_lem k.1 k.2))
      ]
