-- ===== src/Firewall/Installs.antt =====
-- What the commands that install the rules for one program of iptables leave of what was asked of it.
use mathlib.Core.List.{List, []}
use r_wg.Base.{ℕ, refl}
use r_wg.Base.Result.{Result, ok, err}
use r_wg.Config.{Text}
use r_wg.Firewall.{Program, ChainRule, Request, Answer, FirewallError, Entry, Oracle}
use r_wg.Firewall.Commands.{
  run_cmd, cleanup_iptables_family, apply_iptables_family_inner, or_cleanup, apply_iptables_family,
}
use r_wg.Firewall.Ends.{
  entry, Ends, Ends-pure, Ends-fail, Ends-chain, Ends-attempt, Ends-run, Ends-weaken,
}
use r_wg.Firewall.Families.{asked_of, Clean, Over, installed, over_lem, cleanup_lem}
use r_wg.Firewall.Sweeps.{Swept, cleanup-Swept}

module _ (o : Oracle) (p : Program) (I : List Entry → Type 0)
    (stable : (r : Request) (a : Answer) (l : List Entry) → I l → I (entry p r a l)) where
  abbrev Cleaned : List Entry → Type 0
  Cleaned l = I l × Clean (asked_of p l)

  pub step_lem :
      (X : List Entry → Type 0) (es : List Entry) (r : Request)
      → Ends
          (λ l. I l × Over X es (asked_of p l))
          (run_cmd o p r)
          (λ _ l. I l × Over X (entry p r Answer.succeeded es) (asked_of p l))
          (λ _. I)
  step_lem X es r =
      Ends-run o p r
        (λ l i. (stable r Answer.succeeded l i.0, over_lem X p r Answer.succeeded es l i.1))
        (λ e a l i. stable r a l i.0)

  module _ (tun_name : Text) (fwmark : ℕ) where
    abbrev Installs : List Entry → Type 0
    Installs l = I l × Over (Swept p) (installed p tun_name fwmark) (asked_of p l)

    inner_lem :
        Ends
          (λ l. I l × Swept p (asked_of p l))
          (apply_iptables_family_inner o p tun_name fwmark)
          (λ _. Installs)
          (λ _. I)
    unfolding apply_iptables_family_inner
    inner_lem =
        let chain = entry p Request.new_chain Answer.succeeded [] in
        let loopback = entry p (Request.append ChainRule.return_loopback) Answer.succeeded chain in
        let tunnel =
          entry p (Request.append (ChainRule.return_interface tun_name)) Answer.succeeded
            loopback in
        let mark =
          entry p (Request.append (ChainRule.return_mark fwmark)) Answer.succeeded tunnel in
        let rejected = entry p (Request.append ChainRule.reject) Answer.succeeded mark in
        Ends-weaken (λ l i. (i.0, (asked_of p l, (refl, i.1)))) (λ a l i. i) (λ e l i. i)
          (Ends-chain _
            (Ends-chain _
              (Ends-chain _
                (Ends-chain _
                  (Ends-chain _ (step_lem (Swept p) [] Request.new_chain)
                    (λ _. step_lem (Swept p) chain (Request.append ChainRule.return_loopback)))
                  (λ _.
                    step_lem (Swept p) loopback
                      (Request.append (ChainRule.return_interface tun_name))))
                (λ _. step_lem (Swept p) tunnel (Request.append (ChainRule.return_mark fwmark))))
              (λ _. step_lem (Swept p) mark (Request.append ChainRule.reject)))
            (λ _. step_lem (Swept p) rejected Request.insert_jump))

    abbrev Tried : Result FirewallError Unit → List Entry → Type 0
    Tried (ok a) = Installs
    Tried (err e) = I

    or_cleanup_lem :
        (r : Result FirewallError Unit)
        → Ends (Tried r) (or_cleanup (cleanup_iptables_family o p) r) (λ _. Installs) (λ _. Cleaned)
    or_cleanup_lem (ok a) = Ends-pure (λ l i. i)
    or_cleanup_lem (err e) =
        Ends-chain (λ _. Cleaned)
          (Ends-attempt (λ _. Cleaned) (cleanup_lem o p I stable (λ l i. i)))
          (λ _. Ends-fail (λ l i. i))

    abbrev SweptFirst : List Entry → Type 0
    SweptFirst l = I l × Swept p (asked_of p l)

    pub apply_lem :
        Ends I (apply_iptables_family o p tun_name fwmark) (λ _. Installs) (λ _. Cleaned)
    unfolding apply_iptables_family
    apply_lem =
        Ends-chain Tried
          (Ends-chain (λ _. SweptFirst)
            (Ends-attempt (λ _. SweptFirst) (cleanup-Swept o p I stable))
            (λ _. Ends-attempt Tried inner_lem))
          or_cleanup_lem
