-- ===== src/Linux/Keeps.antt =====
-- Invariants of the machine, and the rules by which an action keeps them however it ends.
use mathlib.Core.List.{List, [], ◌∷◌}
use r_wg.Base.{suc, Bool, true, false, if◌then◌else◌, All}
use r_wg.Base.Result.{Result, ok, err}
use r_wg.Linux.{NetworkError}
use r_wg.Linux.Machine.{
  Machine, Call, Reply, Oracle, Sys, Outcome, Action, continue, ◌>>=◌, ◌>>◌, pure, fail, attempt,
  on_error, reported, get_sys, get_machine, edit_report, answered, call, same, remove,
}
use r_wg.Report.{RouteApplyReport}

pub record Keeps {A : Type 0} (I : Machine → Type 0) (m : Action A) : Type 0 where
  pub keeps : (s : Sys) → I s.machine → I (m s).1.machine

Keeps-continue :
    {A B : Type 0} (I : Machine → Type 0) (r : Outcome A) (f : A → Action B) (s : Sys)
    → I s.machine
    → ((a : A) → Keeps I (f a))
    → I (continue r f s).1.machine
Keeps-continue I (Outcome.done a) f s h k = (k a).keeps s h
Keeps-continue I (Outcome.failed e) f s h k = h
Keeps-continue I Outcome.crashed f s h k = h

module _ {A : Type 0} {I : Machine → Type 0} where
  pub Keeps-pure : {a : A} → Keeps I (pure a)
  Keeps-pure = record { keeps = λ s i. i }

  pub Keeps-fail : {e : NetworkError} → Keeps {A = A} I (fail e)
  Keeps-fail = record { keeps = λ s i. i }

  pub Keeps-chain :
      {B : Type 0} {m : Action A} {f : A → Action B}
      → Keeps I m
      → ((a : A) → Keeps I (f a))
      → Keeps I (m >>= f)
  unfolding ◌>>=◌
  Keeps-chain {B} {m} {f} h k = record {
    keeps = λ s i. Keeps-continue I (m s).0 f (m s).1 (h.keeps s i) k;
  }

  pub Keeps-then :
      {B : Type 0} {m : Action A} {n : Action B} → Keeps I m → Keeps I n → Keeps I (m >> n)
  Keeps-then h k = Keeps-chain h (λ _. k)

  pub Keeps-attempt : {m : Action A} → Keeps I m → Keeps I (attempt m)
  unfolding attempt
  Keeps-attempt h = record { keeps = λ s i. h.keeps s i }

  Keeps-reported :
      (f : RouteApplyReport → RouteApplyReport) (r : Result NetworkError A) → Keeps I (reported f r)
  Keeps-reported f (ok a) = record { keeps = λ s i. i }
  Keeps-reported f (err e) = record { keeps = λ s i. i }

  pub Keeps-if : (b : Bool) {m n : Action A} → Keeps I m → Keeps I n → Keeps I (if b then m else n)
  Keeps-if true h k = h
  Keeps-if false h k = k

module _ {A : Type 0} {I : Machine → Type 0} where
  pub Keeps-on_error :
      (f : RouteApplyReport → RouteApplyReport) {m : Action A} → Keeps I m → Keeps I (on_error f m)
  unfolding on_error
  Keeps-on_error f h = Keeps-chain (Keeps-attempt h) (Keeps-reported f)

module _ {I : Machine → Type 0} where
  Keeps-answered :
      (r : Reply) (f : Machine → Machine)
      → ((m : Machine) → I m → I (f m))
      → (s : Sys) → I s.machine
      → I (answered r f s).1.machine
  Keeps-answered Reply.done f h s i = h s.machine i
  Keeps-answered (Reply.refused e) f h s i = i
  Keeps-answered Reply.crash f h s i = i

  pub Keeps-call :
      (o : Oracle) (c : Call) (f : Machine → Machine)
      → ((m : Machine) → I m → I (f m))
      → Keeps I (call o c f)
  unfolding call
  Keeps-call o c f h = record {
    keeps = λ s i. Keeps-answered (o.reply c s.calls) f h (record s { calls = suc s.calls }) i;
  }

  pub Keeps-ask : (o : Oracle) (c : Call) → Keeps I (call o c same)
  Keeps-ask o c = Keeps-call o c same (λ m i. i)

  pub Keeps-get_sys : Keeps I get_sys
  Keeps-get_sys = record { keeps = λ s i. i }

  pub Keeps-get_machine : Keeps I get_machine
  Keeps-get_machine = record { keeps = λ s i. i }

  pub Keeps-edit_report : (f : RouteApplyReport → RouteApplyReport) → Keeps I (edit_report f)
  unfolding edit_report
  Keeps-edit_report f = record { keeps = λ s i. i }

keep_lem {ℓ κ} :
    {A : Type ℓ} (P : A → Type κ) (b : Bool) (y : A) (ys : List A)
    → P y
    → All P ys
    → All P (if b then ys else y ∷ ys)
keep_lem P true y ys h k = k
keep_lem P false y ys h k = (h, k)

pub All-remove {ℓ κ} :
    {A : Type ℓ} (P : A → Type κ) (same : A → A → Bool) (x : A) (ys : List A)
    → All P ys
    → All P (remove same x ys)
unfolding remove
All-remove P same x [] h = tt
All-remove P same x (y ∷ ys) h = keep_lem P (same x y) y _ h.0 (All-remove P same x ys h.1)
