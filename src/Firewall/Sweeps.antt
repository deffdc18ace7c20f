-- ===== src/Firewall/Sweeps.antt =====
-- What the cleanup of one program of iptables asks of it, whole or up to the request that is refused.
use mathlib.Core.List.{List}
use mathlib.Core.Logic.{◌⊎◌, inl, inr}
use native.Mathlib.Omega.{arith}
use r_wg.Base.{ℕ, zero, suc, ◌+◌, ◌≡◌, refl, ◌∙◌, ap, subst, Bool, true, false, Bool-cases}
use r_wg.Firewall.{
  Program, Request, Answer, FirewallError, Entry, Oracle, is_missing_firewall_state,
}
use r_wg.Firewall.Commands.{
  ◌>>=◌, attempt, ignore_missing_firewall_state, result_of, run_cmd, delete_more, delete_jumps,
  cleanup_iptables_family,
}
use r_wg.Firewall.Ends.{entry, Ended, Ends, Ends-pure, Ends-chain, Ends-weaken}
use r_wg.Firewall.Families.{asked_of, is_cleanup, own_lem}

-- There was nothing to remove.
abbrev pub is_missing : Answer → Bool
is_missing Answer.succeeded = false
is_missing Answer.not_run = false
is_missing (Answer.exited stderr) = is_missing_firewall_state (FirewallError.command_failed stderr)

abbrev pub is_accepted : Answer → Bool
is_accepted Answer.succeeded = true
is_accepted Answer.not_run = false
is_accepted (Answer.exited stderr) = is_missing_firewall_state (FirewallError.command_failed stderr)

-- The deletion of the jump, carried out as many times.
abbrev pub jumps : Program → ℕ → List Entry → List Entry
jumps p zero rest = rest
jumps p (suc n) rest = entry p Request.delete_jump Answer.succeeded (jumps p n rest)

-- The last request removed something or found nothing, and X holds of those before.
abbrev pub Removed : Program → Request → (List Entry → Type 0) → List Entry → Type 0
Removed p r X l =
    (a : Answer) × ((rest : List Entry) × ((is_accepted a ≡ true)
        × ((l ≡ entry p r a rest) × X rest)))

-- There was no jump left, or eight were deleted.
abbrev pub JumpsGone : Program → List Entry → Type 0
JumpsGone p l =
    ((a : Answer) × ((rest : List Entry) × ((is_missing a ≡ true)
          × (l ≡ entry p Request.delete_jump a rest))))
    ⊎ ((rest : List Entry) × (l ≡ jumps p 8 rest))

-- The last request is one of a cleanup and was refused.
abbrev pub Refused : Program → List Entry → Type 0
Refused p l =
    (r : Request) × ((a : Answer) × ((rest : List Entry) × ((is_cleanup r ≡ true)
          × ((is_accepted a ≡ false) × (l ≡ entry p r a rest)))))

abbrev pub Whole : Program → List Entry → Type 0
Whole p = Removed p Request.delete_chain (Removed p Request.flush_chain (JumpsGone p))

-- The jumps, the rules and the chain, or up to a request that was refused.
abbrev pub Swept : Program → List Entry → Type 0
Swept p l = Whole p l ⊎ Refused p l

module _ (o : Oracle) (p : Program) (I : List Entry → Type 0)
    (stable : (r : Request) (a : Answer) (l : List Entry) → I l → I (entry p r a l)) where
  abbrev With : (List Entry → Type 0) → List Entry → Type 0
  With X l = I l × X (asked_of p l)

  refused_lem :
      (r : Request) (a : Answer) (l : List Entry)
      → is_cleanup r ≡ true
      → is_accepted a ≡ false
      → I l
      → With (Refused p) (entry p r a l)
  refused_lem r a l c e i = (stable r a l i, (r, (a, (asked_of p l, (c, (e, own_lem p r a l))))))

  removed_lem :
      (X : List Entry → Type 0) (r : Request) (a : Answer) (l : List Entry)
      → is_accepted a ≡ true
      → With X l
      → With (Removed p r X) (entry p r a l)
  removed_lem X r a l e i = (stable r a l i.0, (a, (asked_of p l, (e, (own_lem p r a l, i.1)))))

  removal_case :
      (X : List Entry → Type 0) (r : Request) (a : Answer) (l : List Entry)
      → is_cleanup r ≡ true
      → With X l
      → Ended
          (λ _. With (Removed p r X))
          (λ _. With (Refused p))
          (ignore_missing_firewall_state (result_of a) (entry p r a l)).0
          (ignore_missing_firewall_state (result_of a) (entry p r a l)).1
  unfolding is_missing_firewall_state
  removal_case X r Answer.succeeded l c i = removed_lem X r Answer.succeeded l refl i
  removal_case X r Answer.not_run l c i = refused_lem r Answer.not_run l c refl i.0
  removal_case X r (Answer.exited s) l c i = elim (Bool-cases (is_accepted (Answer.exited s))) [
    | inl e ↦ let done = removed_lem X r (Answer.exited s) l e i in rw e done
    | inr e ↦ let done = refused_lem r (Answer.exited s) l c e i.0 in rw e done
  ]

  removal_lem :
      (X : List Entry → Type 0) (r : Request)
      → is_cleanup r ≡ true
      → Ends
          (With X)
          (attempt (run_cmd o p r) >>= ignore_missing_firewall_state)
          (λ _. With (Removed p r X))
          (λ _. With (Refused p))
  unfolding ◌>>=◌ attempt run_cmd
  removal_lem X r c = record { ends = λ l i. removal_case X r (o.answer l p r) l c i }

  abbrev Deleted : ℕ → List Entry → Type 0
  Deleted k x = (rest : List Entry) × (x ≡ jumps p k rest)

  gone_lem : (k : ℕ) (l : List Entry) → k + zero ≡ 8 → With (Deleted k) l → With (JumpsGone p) l
  gone_lem k l e i =
      let same : k ≡ 8 = omega (arith, e) in
      (i.0, inr (subst (λ n. Deleted n (asked_of p l)) same i.1))

  jump_case :
      (n k : ℕ) (a : Answer) (l : List Entry)
      → Ends
          (With (Deleted (suc k)))
          (delete_jumps o n p)
          (λ _. With (JumpsGone p))
          (λ _. With (Refused p))
      → With (Deleted k) l
      → Ended
          (λ _. With (JumpsGone p))
          (λ _. With (Refused p))
          (delete_more (delete_jumps o n p) (result_of a) (entry p Request.delete_jump a l)).0
          (delete_more (delete_jumps o n p) (result_of a) (entry p Request.delete_jump a l)).1
  unfolding is_missing_firewall_state
  jump_case n k Answer.succeeded l h i = h.ends (entry p Request.delete_jump Answer.succeeded l) (
    stable Request.delete_jump Answer.succeeded l i.0,
    (
      i.1.0,
      own_lem p Request.delete_jump Answer.succeeded l
          ∙ ap (entry p Request.delete_jump Answer.succeeded) i.1.1,
    ),
  )
  jump_case n k Answer.not_run l h i =
      refused_lem Request.delete_jump Answer.not_run l refl refl i.0
  jump_case n k (Answer.exited s) l h i =
      let a = Answer.exited s in
      elim (Bool-cases (is_missing a)) [
        | inl e ↦
            let gone : With (JumpsGone p) (entry p Request.delete_jump a l) = (
              stable Request.delete_jump a l i.0,
              inl (a, (asked_of p l, (e, own_lem p Request.delete_jump a l))),
            ) in
            rw e gone
        | inr e ↦ let no = refused_lem Request.delete_jump a l refl e i.0 in rw e no
      ]

  jumps_lem :
      (n k : ℕ)
      → k + n ≡ 8
      → Ends
          (With (Deleted k))
          (delete_jumps o n p)
          (λ _. With (JumpsGone p))
          (λ _. With (Refused p))
  unfolding delete_jumps ◌>>=◌ attempt run_cmd
  jumps_lem zero k e = Ends-pure (λ l i. gone_lem k l e i)
  jumps_lem (suc n) k e = record {
    ends = λ l i.
        jump_case n k (o.answer l p Request.delete_jump) l (jumps_lem n (suc k) (omega (arith, e)))
          i;
  }

  cleanup_whole_lem :
      Ends I (cleanup_iptables_family o p) (λ _. With (Whole p)) (λ _. With (Refused p))
  unfolding cleanup_iptables_family
  cleanup_whole_lem =
      Ends-chain (λ _. With (Removed p Request.flush_chain (JumpsGone p)))
        (Ends-chain (λ _. With (JumpsGone p))
          (Ends-weaken (λ l i. (i, (asked_of p l, refl))) (λ a l i. i) (λ e l i. i)
            (jumps_lem 8 0 refl))
          (λ _. removal_lem (JumpsGone p) Request.flush_chain refl))
        (λ _. removal_lem (Removed p Request.flush_chain (JumpsGone p)) Request.delete_chain refl)

  -- However the cleanup ends.
  pub cleanup-Swept :
      Ends I (cleanup_iptables_family o p) (λ _. With (Swept p)) (λ _. With (Swept p))
  cleanup-Swept =
      Ends-weaken (λ l i. i) (λ a l i. (i.0, inl i.1)) (λ e l i. (i.0, inr i.1)) cleanup_whole_lem
