-- ===== src/Linux/Ends.antt =====
-- What holds of the machine when an action succeeds, and when it does not.
use r_wg.Linux.Keeps.{Keeps}
use r_wg.Linux.Machine.{
  Machine, Call, Reply, Oracle, Sys, Outcome, Action, continue, ◌>>=◌, pure, attempt, attempted,
  on_error, reported, answered, call,
}
use r_wg.Base.{suc}
use r_wg.Report.{RouteApplyReport}

abbrev pub Post :
    {A : Type 0} → (A → Machine → Type 0) → (Machine → Type 0) → Outcome A → Machine → Type 0
Post Q R (Outcome.done a) m = Q a m
Post Q R (Outcome.failed e) m = R m
Post Q R Outcome.crashed m = R m

pub record Ends {A : Type 0} (P : Machine → Type 0) (m : Action A) (Q : A → Machine → Type 0)
    (R : Machine → Type 0) : Type 0 where
  pub ends : (s : Sys) → P s.machine → Post Q R (m s).0 (m s).1.machine

continue_lem :
    {A B : Type 0} (R : Machine → Type 0) (Q : A → Machine → Type 0) (S : B → Machine → Type 0)
    (r : Outcome A) (f : A → Action B) (s : Sys)
    → Post Q R r s.machine
    → ((a : A) → Ends (Q a) (f a) S R)
    → Post S R (continue r f s).0 (continue r f s).1.machine
continue_lem R Q S (Outcome.done a) f s h k = (k a).ends s h
continue_lem R Q S (Outcome.failed e) f s h k = h
continue_lem R Q S Outcome.crashed f s h k = h

pub Ends-chain :
    {A B : Type 0} {P R : Machine → Type 0} {Q : A → Machine → Type 0} {S : B → Machine → Type 0}
    {m : Action A} {f : A → Action B}
    → Ends P m Q R
    → ((a : A) → Ends (Q a) (f a) S R)
    → Ends P (m >>= f) S R
unfolding ◌>>=◌
Ends-chain {R} {Q} {S} {m} {f} h k = record {
  ends = λ s p. continue_lem R Q S (m s).0 f (m s).1 (h.ends s p) k;
}

kept_lem :
    {A : Type 0} (P R : Machine → Type 0) (r : Outcome A) (m : Machine)
    → P m
    → ((m : Machine) → P m → R m)
    → Post (λ (_ : A). P) R r m
kept_lem P R (Outcome.done a) m p h = p
kept_lem P R (Outcome.failed e) m p h = h m p
kept_lem P R Outcome.crashed m p h = h m p

pub Ends-keeps :
    {A : Type 0} {P R : Machine → Type 0} {m : Action A}
    → Keeps P m
    → ((m : Machine) → P m → R m)
    → Ends P m (λ _. P) R
Ends-keeps {P} {R} {m} k h = record {
  ends = λ s p. kept_lem P R (m s).0 (m s).1.machine (k.keeps s p) h;
}

reported_lem :
    {A : Type 0} (R : Machine → Type 0) (Q : A → Machine → Type 0)
    (f : RouteApplyReport → RouteApplyReport) (r : Outcome A) (s : Sys)
    → Post Q R r s.machine
    → Post Q R
        (continue (attempted r) (reported f) s).0
        (continue (attempted r) (reported f) s).1.machine
reported_lem R Q f (Outcome.done a) s h = h
reported_lem R Q f (Outcome.failed e) s h = h
reported_lem R Q f Outcome.crashed s h = h

answered_lem :
    (P Q R : Machine → Type 0) (r : Reply) (f : Machine → Machine) (s : Sys)
    → P s.machine
    → ((m : Machine) → P m → Q (f m))
    → ((m : Machine) → P m → R m)
    → Post (λ (_ : Unit). Q) R (answered r f s).0 (answered r f s).1.machine
answered_lem P Q R Reply.done f s p h k = h s.machine p
answered_lem P Q R (Reply.refused e) f s p h k = k s.machine p
answered_lem P Q R Reply.crash f s p h k = k s.machine p

module _ {A : Type 0} {P R : Machine → Type 0} {Q : A → Machine → Type 0} where
  pub Ends-pure : {a : A} → ((m : Machine) → P m → Q a m) → Ends P (pure a) Q R
  Ends-pure h = record { ends = λ s p. h s.machine p }

  pub Ends-before :
      {N : Machine → Type 0} {m : Action A}
      → ((m : Machine) → N m → P m)
      → Ends P m Q R
      → Ends N m Q R
  Ends-before h e = record { ends = λ s n. e.ends s (h s.machine n) }

  pub Ends-on_error :
      (f : RouteApplyReport → RouteApplyReport) {m : Action A}
      → Ends P m Q R
      → Ends P (on_error f m) Q R
  unfolding on_error ◌>>=◌ attempt
  Ends-on_error f {m} h = record { ends = λ s p. reported_lem R Q f (m s).0 (m s).1 (h.ends s p) }

post_lem :
    {A : Type 0} (R : Machine → Type 0) (Q S : A → Machine → Type 0) (r : Outcome A) (m : Machine)
    → ((a : A) (m : Machine) → Q a m → S a m)
    → Post Q R r m
    → Post S R r m
post_lem R Q S (Outcome.done a) m h p = h a m p
post_lem R Q S (Outcome.failed e) m h p = p
post_lem R Q S Outcome.crashed m h p = p

module _ {A : Type 0} {P R : Machine → Type 0} {Q S : A → Machine → Type 0} where
  pub Ends-after :
      {m : Action A} → ((a : A) (m : Machine) → Q a m → S a m) → Ends P m Q R → Ends P m S R
  Ends-after {m} h e = record {
    ends = λ s p. post_lem R Q S (m s).0 (m s).1.machine h (e.ends s p);
  }

-- What holds whatever the action returns.
pub Post-same :
    {A : Type 0} (R : Machine → Type 0) (r : Outcome A) (m : Machine)
    → Post (λ (_ : A). R) R r m
    → R m
Post-same R (Outcome.done a) m h = h
Post-same R (Outcome.failed e) m h = h
Post-same R Outcome.crashed m h = h

module _ {P Q R : Machine → Type 0} where
  pub Ends-call :
      (o : Oracle) (c : Call) (f : Machine → Machine)
      → ((m : Machine) → P m → Q (f m))
      → ((m : Machine) → P m → R m)
      → Ends P (call o c f) (λ _. Q) R
  unfolding call
  Ends-call o c f h k = record {
    ends = λ s p. answered_lem P Q R (o.reply c s.calls) f (record s { calls = suc s.calls }) p h k;
  }
