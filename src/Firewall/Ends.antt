-- ===== src/Firewall/Ends.antt =====
-- What holds when a command of the kill switch ends, and the rules that prove it.
use mathlib.Core.List.{List, ◌∷◌}
use r_wg.Base.{Bool, true, false, if◌then◌else◌}
use r_wg.Base.Result.{Result, ok, err}
use r_wg.Firewall.{
  Program, Request, Answer, FirewallError, Entry, Oracle, is_missing_firewall_state,
}
use r_wg.Firewall.Commands.{
  Action, continue, ◌>>=◌, pure, fail, attempt, ignore_missing_firewall_state, asked, run_cmd,
}

-- Q of what is returned and of what was asked, E after an error.
abbrev pub Ended :
    {A : Type 0}
    → (A → List Entry → Type 0)
    → (FirewallError → List Entry → Type 0)
    → Result FirewallError A
    → List Entry
    → Type 0
Ended Q E (ok a) l = Q a l
Ended Q E (err e) l = E e l

pub record Ends {A : Type 0} (P : List Entry → Type 0) (m : Action A) (Q : A → List Entry → Type 0)
    (E : FirewallError → List Entry → Type 0) : Type 0 where
  pub ends : (l : List Entry) → P l → Ended Q E (m l).0 (m l).1

abbrev pub entry : Program → Request → Answer → List Entry → List Entry
entry p r a l = record { program = p; request = r; answer = a } ∷ l

continue_lem :
    {A B : Type 0} (S : A → List Entry → Type 0) (Q : B → List Entry → Type 0)
    (E : FirewallError → List Entry → Type 0) (r : Result FirewallError A) (f : A → Action B)
    (l : List Entry)
    → Ended S E r l
    → ((a : A) → Ends (S a) (f a) Q E)
    → Ended Q E (continue r f l).0 (continue r f l).1
continue_lem S Q E (ok a) f l h k = (k a).ends l h
continue_lem S Q E (err e) f l h k = h

attempt_lem :
    {A : Type 0} (S : Result FirewallError A → List Entry → Type 0) (r : Result FirewallError A)
    (l : List Entry)
    → Ended (λ a. S (ok a)) (λ e. S (err e)) r l
    → S r l
attempt_lem S (ok a) l h = h
attempt_lem S (err e) l h = h

module _ {A : Type 0} {P : List Entry → Type 0} {Q : A → List Entry → Type 0}
    {E : FirewallError → List Entry → Type 0} where
  pub Ends-pure : {a : A} → ((l : List Entry) → P l → Q a l) → Ends P (pure a) Q E
  Ends-pure h = record { ends = h }

  pub Ends-fail :
      {e : FirewallError} → ((l : List Entry) → P l → E e l) → Ends {A = A} P (fail e) Q E
  Ends-fail h = record { ends = h }

  pub Ends-if :
      (b : Bool) {m n : Action A} → Ends P m Q E → Ends P n Q E → Ends P (if b then m else n) Q E
  Ends-if true h k = h
  Ends-if false h k = k

  pub Ends-chain :
      {B : Type 0} (S : B → List Entry → Type 0) {m : Action B} {f : B → Action A}
      → Ends P m S E
      → ((b : B) → Ends (S b) (f b) Q E)
      → Ends P (m >>= f) Q E
  unfolding ◌>>=◌
  Ends-chain S {m} {f} h k = record {
    ends = λ l p. continue_lem S Q E (m l).0 f (m l).1 (h.ends l p) k;
  }

pub Ends-attempt :
    {A : Type 0} {P : List Entry → Type 0} {E : FirewallError → List Entry → Type 0}
    (S : Result FirewallError A → List Entry → Type 0) {m : Action A}
    → Ends P m (λ a. S (ok a)) (λ e. S (err e))
    → Ends P (attempt m) S E
unfolding attempt
Ends-attempt S {m} h = record { ends = λ l p. attempt_lem S (m l).0 (m l).1 (h.ends l p) }

asked_lem :
    (P : List Entry → Type 0) (Q : Unit → List Entry → Type 0)
    (E : FirewallError → List Entry → Type 0) (p : Program) (r : Request) (a : Answer)
    (l : List Entry)
    → P l
    → ((l : List Entry) → P l → Q tt (entry p r Answer.succeeded l))
    → ((e : FirewallError) (a : Answer) (l : List Entry) → P l → E e (entry p r a l))
    → Ended Q E (asked p r a l).0 (asked p r a l).1
asked_lem P Q E p r Answer.succeeded l i h k = h l i
asked_lem P Q E p r Answer.not_run l i h k = k _ Answer.not_run l i
asked_lem P Q E p r (Answer.exited s) l i h k = k _ (Answer.exited s) l i

-- A request ends well only when the program does.
pub Ends-run :
    {P : List Entry → Type 0} {Q : Unit → List Entry → Type 0}
    {E : FirewallError → List Entry → Type 0} (o : Oracle) (p : Program) (r : Request)
    → ((l : List Entry) → P l → Q tt (entry p r Answer.succeeded l))
    → ((e : FirewallError) (a : Answer) (l : List Entry) → P l → E e (entry p r a l))
    → Ends P (run_cmd o p r) Q E
unfolding run_cmd
Ends-run {P} {Q} {E} o p r h k = record {
  ends = λ l i. asked_lem P Q E p r (o.answer l p r) l i h k;
}

-- What no request of some program changes is kept.
abbrev pub Kept : {A : Type 0} → (List Entry → Type 0) → Action A → Type 0
Kept I m = Ends I m (λ _. I) (λ _. I)

module _ {I : List Entry → Type 0} where
  pub Kept-ignore : (r : Result FirewallError Unit) → Kept I (ignore_missing_firewall_state r)
  Kept-ignore (ok a) = Ends-pure (λ l i. i)
  Kept-ignore (err e) =
      Ends-if (is_missing_firewall_state e) (Ends-pure (λ l i. i)) (Ends-fail (λ l i. i))

weaken_lem :
    {A : Type 0} (Q Q' : A → List Entry → Type 0) (E E' : FirewallError → List Entry → Type 0)
    (r : Result FirewallError A) (l : List Entry)
    → ((a : A) (l : List Entry) → Q a l → Q' a l)
    → ((e : FirewallError) (l : List Entry) → E e l → E' e l)
    → Ended Q E r l
    → Ended Q' E' r l
weaken_lem Q Q' E E' (ok a) l after other h = after a l h
weaken_lem Q Q' E E' (err e) l after other h = other e l h

pub Ends-weaken :
    {A : Type 0} {P P' : List Entry → Type 0} {Q Q' : A → List Entry → Type 0}
    {E E' : FirewallError → List Entry → Type 0} {m : Action A}
    → ((l : List Entry) → P' l → P l)
    → ((a : A) (l : List Entry) → Q a l → Q' a l)
    → ((e : FirewallError) (l : List Entry) → E e l → E' e l)
    → Ends P m Q E
    → Ends P' m Q' E'
Ends-weaken {A} {P} {P'} {Q} {Q'} {E} {E'} {m} before after other h = record {
  ends = λ l p. weaken_lem Q Q' E E' (m l).0 (m l).1 after other (h.ends l (before l p));
}
