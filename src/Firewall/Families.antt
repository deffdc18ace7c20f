-- ===== src/Firewall/Families.antt =====
-- What the commands for one program of iptables leave of what was asked of it.
use mathlib.Core.List.{List, [], ◌∷◌, ◌++◌}
use r_wg.Base.{ℕ, zero, suc, ◌≡◌, refl, sym, ◌∙◌, ap, subst, Bool, true, false, if◌then◌else◌}
use r_wg.Base.Result.{Result, ok, err}
use r_wg.Config.{Text}
use r_wg.Firewall.{
  Program, ChainRule, Request, Answer, FirewallError, Entry, Oracle, is_missing_firewall_state,
}
use r_wg.Firewall.Commands.{
  Action, ◌>>=◌, attempt, ignore_missing_firewall_state, run_cmd, delete_more, delete_jumps,
  cleanup_iptables_family,
}
use r_wg.Firewall.Ends.{
  entry, Ends, Ends-pure, Ends-fail, Ends-if, Ends-chain, Ends-attempt, Ends-run, Kept, Kept-ignore,
}

abbrev pub same_program : Program → Program → Bool
same_program Program.nft Program.nft = true
same_program Program.iptables Program.iptables = true
same_program Program.ip6tables Program.ip6tables = true
same_program Program.nft Program.iptables = false
same_program Program.nft Program.ip6tables = false
same_program Program.iptables Program.nft = false
same_program Program.iptables Program.ip6tables = false
same_program Program.ip6tables Program.nft = false
same_program Program.ip6tables Program.iptables = false

-- What was asked of one program.
abbrev pub asked_of : Program → List Entry → List Entry
asked_of p [] = []
asked_of p (e ∷ l) = if same_program e.program p then e ∷ asked_of p l else asked_of p l

abbrev pub is_cleanup : Request → Bool
is_cleanup Request.delete_table = true
is_cleanup Request.delete_jump = true
is_cleanup Request.flush_chain = true
is_cleanup Request.delete_chain = true
is_cleanup Request.new_chain = false
is_cleanup Request.insert_jump = false
is_cleanup (Request.load_rules script) = false
is_cleanup (Request.append rule) = false

-- The last request, if there is one, belongs to a cleanup.
abbrev pub Clean : List Entry → Type 0
Clean [] = Unit
Clean (e ∷ l) = is_cleanup e.request ≡ true

-- The last entries, after some of which X holds.
abbrev pub Over : (List Entry → Type 0) → List Entry → List Entry → Type 0
Over X es l = (rest : List Entry) × ((l ≡ es ++ rest) × X rest)

-- The chain with its rules and the jump to it, last first, every request carried out.
abbrev pub installed : Program → Text → ℕ → List Entry
installed p tun_name fwmark = entry p Request.insert_jump Answer.succeeded (
    entry p (Request.append ChainRule.reject) Answer.succeeded (
      entry p (Request.append (ChainRule.return_mark fwmark)) Answer.succeeded (
        entry p (Request.append (ChainRule.return_interface tun_name)) Answer.succeeded (
          entry p (Request.append ChainRule.return_loopback) Answer.succeeded
            (entry p Request.new_chain Answer.succeeded [])))))

pub own_lem :
    (p : Program) (r : Request) (a : Answer) (l : List Entry)
    → asked_of p (entry p r a l) ≡ entry p r a (asked_of p l)
own_lem Program.nft r a l = refl
own_lem Program.iptables r a l = refl
own_lem Program.ip6tables r a l = refl

pub clean_lem :
    (p : Program) (r : Request) (a : Answer) (l : List Entry)
    → is_cleanup r ≡ true
    → Clean (asked_of p (entry p r a l))
clean_lem p r a l h = subst Clean (sym (own_lem p r a l)) h

pub over_lem :
    (X : List Entry → Type 0) (p : Program) (r : Request) (a : Answer) (es l : List Entry)
    → Over X es (asked_of p l)
    → Over X (entry p r a es) (asked_of p (entry p r a l))
over_lem X p r a es l h = (h.0, (own_lem p r a l ∙ ap (entry p r a) h.1.0, h.1.1))

-- What holds of the other programs does not depend on this one.
module _ (o : Oracle) (p : Program) (I : List Entry → Type 0)
    (stable : (r : Request) (a : Answer) (l : List Entry) → I l → I (entry p r a l)) where
  abbrev Cleaned : List Entry → Type 0
  Cleaned l = I l × Clean (asked_of p l)

  clean_run :
      {P : List Entry → Type 0} (r : Request)
      → ((l : List Entry) → P l → I l)
      → is_cleanup r ≡ true
      → Ends P (run_cmd o p r) (λ _. Cleaned) (λ _. Cleaned)
  clean_run r h c =
      Ends-run o p r
        (λ l i. (stable r Answer.succeeded l (h l i), clean_lem p r Answer.succeeded l c))
        (λ e a l i. (stable r a l (h l i), clean_lem p r a l c))

  pub clean_step :
      {P : List Entry → Type 0} (r : Request)
      → ((l : List Entry) → P l → I l)
      → is_cleanup r ≡ true
      → Ends P
          (attempt (run_cmd o p r) >>= ignore_missing_firewall_state)
          (λ _. Cleaned)
          (λ _. Cleaned)
  clean_step r h c =
      Ends-chain (λ _. Cleaned) (Ends-attempt (λ _. Cleaned) (clean_run r h c)) Kept-ignore

  more_lem :
      (again : Action Unit)
      → Kept Cleaned again
      → (r : Result FirewallError Unit) → Kept Cleaned (delete_more again r)
  more_lem again k (ok a) = k
  more_lem again k (err e) =
      Ends-if (is_missing_firewall_state e) (Ends-pure (λ l i. i)) (Ends-fail (λ l i. i))

  jump_lem :
      {P : List Entry → Type 0} (n : ℕ)
      → ((l : List Entry) → P l → I l)
      → Kept Cleaned (delete_jumps o n p)
      → Ends P (delete_jumps o (suc n) p) (λ _. Cleaned) (λ _. Cleaned)
  unfolding delete_jumps
  jump_lem n h k =
      Ends-chain (λ _. Cleaned) (Ends-attempt (λ _. Cleaned) (clean_run Request.delete_jump h refl))
        (more_lem (delete_jumps o n p) k)

  jumps_lem : (n : ℕ) → Kept Cleaned (delete_jumps o n p)
  unfolding delete_jumps
  jumps_lem zero = Ends-pure (λ l i. i)
  jumps_lem (suc n) = jump_lem n (λ l i. i.0) (jumps_lem n)

  pub cleanup_lem :
      {P : List Entry → Type 0}
      → ((l : List Entry) → P l → I l)
      → Ends P (cleanup_iptables_family o p) (λ _. Cleaned) (λ _. Cleaned)
  unfolding cleanup_iptables_family delete_jumps
  cleanup_lem h =
      Ends-chain (λ _. Cleaned)
        (Ends-chain (λ _. Cleaned) (jump_lem 7 h (jumps_lem 7))
          (λ _. clean_step Request.flush_chain (λ l i. i.0) refl))
        (λ _. clean_step Request.delete_chain (λ l i. i.0) refl)
