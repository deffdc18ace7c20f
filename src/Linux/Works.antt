-- ===== src/Linux/Works.antt =====
-- Actions whose calls are all done, and lists that are emptied by removing what covers them.
use mathlib.Core.List.{List, [], ◌∷◌}
use r_wg.Base.{ℕ, ◌≡◌, refl, Bool, true, false, ◌||◌, any, if◌then◌else◌}
use r_wg.Linux.Ends.{Ends, Post}
use r_wg.Linux.Journaled.{Covers}
use r_wg.Linux.Machine.{
  Machine, Call, Reply, Oracle, Sys, Outcome, Action, continue, attempted, ◌>>=◌, attempt,
  get_machine, answered, call, same, remove,
}

-- Every call is done.
abbrev pub Works : Oracle → Type 0
Works o = (c : Call) (n : ℕ) → o.reply c n ≡ Reply.done

module _ {ℓ} {A : Type ℓ} (same : A → A → Bool) where
  step_lem :
      (b : Bool) (y : A) (xs ys : List A)
      → (b || any (λ x. same x y) xs) ≡ true
      → Covers same xs ys
      → Covers same xs (if b then ys else y ∷ ys)
  step_lem true y xs ys e h = h
  step_lem false y xs ys e h = (e, h)

  pub Covers-remove :
      (x : A) (xs ys : List A) → Covers same (x ∷ xs) ys → Covers same xs (remove same x ys)
  unfolding remove
  Covers-remove x xs [] h = tt
  Covers-remove x xs (y ∷ ys) h = step_lem (same x y) y xs _ h.0 (Covers-remove x xs ys h.1)

  pub Covers-empty : (ys : List A) → Covers same [] ys → ys ≡ []
  Covers-empty [] h = refl
  Covers-empty (y ∷ ys) h = absurd (cc (h.0))

works_lem :
    (P Q R : Machine → Type 0) (r : Reply) (f : Machine → Machine) (s : Sys)
    → r ≡ Reply.done
    → P s.machine
    → ((m : Machine) → P m → Q (f m))
    → Post (λ (_ : Unit). Q) R (answered r f s).0 (answered r f s).1.machine
works_lem P Q R r f s e p h = rw e (h s.machine p)

module _ {P Q R : Machine → Type 0} where
  pub Ends-works :
      (o : Oracle) (c : Call) (f : Machine → Machine)
      → Works o
      → ((m : Machine) → P m → Q (f m))
      → Ends P (call o c f) (λ _. Q) R
  unfolding call
  Ends-works o c f w h = record {
    ends = λ s p. works_lem P Q R (o.reply c s.calls) f _ (w c s.calls) p h;
  }

-- What an action that cannot fail leaves when it fails.
abbrev pub Never : Machine → Type 0
Never m = true ≡ false

tried_lem :
    {A B : Type 0} (Q R : Machine → Type 0) (S : B → Machine → Type 0) (r : Outcome A)
    (n : Action B) (s : Sys)
    → Post (λ (_ : A). Q) Never r s.machine
    → Ends Q n S R
    → Post S R (continue (attempted r) (λ _. n) s).0 (continue (attempted r) (λ _. n) s).1.machine
tried_lem Q R S (Outcome.done a) n s h k = k.ends s h
tried_lem Q R S (Outcome.failed e) n s h k = absurd (cc h)
tried_lem Q R S Outcome.crashed n s h k = absurd (cc h)

-- A step that is attempted and whose outcome is dropped.
module _ {A B : Type 0} {P R : Machine → Type 0} {S : B → Machine → Type 0} where
  pub Ends-tried :
      {Q : Machine → Type 0} {m : Action A} {n : Action B}
      → Ends P m (λ _. Q) Never
      → Ends Q n S R
      → Ends P (attempt m >>= λ _. n) S R
  unfolding ◌>>=◌ attempt
  Ends-tried {Q} {m} {n} h k = record {
    ends = λ s p. tried_lem Q R S (m s).0 n (m s).1 (h.ends s p) k;
  }

module _ {B : Type 0} {P R : Machine → Type 0} {S : B → Machine → Type 0} where
  pub Ends-if :
      (b : Bool) {m n : Action B} → Ends P m S R → Ends P n S R → Ends P (if b then m else n) S R
  Ends-if true h k = h
  Ends-if false h k = k

pub Ends-got : {P : Machine → Type 0} (R : Machine → Type 0) → Ends P get_machine (λ _. P) R
Ends-got R = record { ends = λ s p. p }

module _ (o : Oracle) (w : Works o) (R : Machine → Type 0) where
  pub Ends-ask : {P : Machine → Type 0} (c : Call) → Ends P (call o c same) (λ _. P) R
  Ends-ask c = Ends-works o c same w (λ m p. p)
