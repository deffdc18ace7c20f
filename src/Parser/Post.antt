-- ===== src/Parser/Post.antt =====
-- What holds of the result of a step of the parser, and its rules.
use r_wg.Base.{ℕ, suc, ◌≡◌, refl, Bool, true, false, Option, none, some, if◌then◌else◌, ◌≤◌, arith}
use r_wg.Base.Result.{Result, ok, err, ◌>>=◌}
use r_wg.Parser.{FieldError}
use r_wg.Parser.Builders.{ConfigProblem, ConfigError, at_line, field_at, key_at, line_at, once}
use r_wg.Parser.Keys.{KeyError}
use r_wg.Parser.Lines.{LineError}

-- The line is one of the first n, if there is one.
abbrev pub Within : ℕ → Option ℕ → Type 0
Within n none = Unit
Within n (some k) = (1 ≤ k) × (k ≤ n)

-- A predicate of what is returned, and an error within the first n lines.
abbrev pub Post : {A : Type 0} → (A → Type 0) → ℕ → Result ConfigError A → Type 0
Post Q n (ok a) = Q a
Post Q n (err e) = Within n e.line

pub Post-chain :
    {A B : Type 0} (Q : A → Type 0) (S : B → Type 0) (n : ℕ) (r : Result ConfigError A)
    (f : A → Result ConfigError B)
    → Post Q n r
    → ((a : A) → Q a → Post S n (f a))
    → Post S n (r >>= f)
Post-chain Q S n (ok a) f h k = k a h
Post-chain Q S n (err e) f h k = h

pub Post-if :
    {A : Type 0} (Q : A → Type 0) (n : ℕ) (b : Bool) (r t : Result ConfigError A)
    → (b ≡ true → Post Q n r)
    → (b ≡ false → Post Q n t)
    → Post Q n (if b then r else t)
Post-if Q n true r t h k = h refl
Post-if Q n false r t h k = k refl

pub Post-line :
    {A : Type 0} (Q : A → Type 0) (n : ℕ) (p : ConfigProblem) → Post Q (suc n) (at_line (suc n) p)
Post-line Q n p = (omega arith, omega arith)

pub Post-field :
    {A B : Type 0} (Q : B → Type 0) (n : ℕ) (r : Result FieldError A) (f : A → Result ConfigError B)
    → ((a : A) → r ≡ ok a → Post Q (suc n) (f a))
    → Post Q (suc n) (field_at (suc n) r >>= f)
Post-field Q n (ok a) f h = h a refl
Post-field Q n (err e) f h = (omega arith, omega arith)

pub Post-key :
    {A B : Type 0} (Q : B → Type 0) (n : ℕ) (r : Result KeyError A) (f : A → Result ConfigError B)
    → ((a : A) → r ≡ ok a → Post Q (suc n) (f a))
    → Post Q (suc n) (key_at (suc n) r >>= f)
Post-key Q n (ok a) f h = h a refl
Post-key Q n (err e) f h = (omega arith, omega arith)

pub Post-split :
    {A B : Type 0} (Q : B → Type 0) (n : ℕ) (r : Result LineError A) (f : A → Result ConfigError B)
    → ((a : A) → Post Q (suc n) (f a))
    → Post Q (suc n) (line_at (suc n) r >>= f)
Post-split Q n (ok a) f h = h a
Post-split Q n (err e) f h = (omega arith, omega arith)

pub Post-once :
    {A B : Type 0} (Q : B → Type 0) (n : ℕ) (o : Option A) (r : Result ConfigError B)
    → Post Q (suc n) r
    → Post Q (suc n) (once (suc n) o r)
Post-once Q n none r h = h
Post-once Q n (some a) r h = (omega arith, omega arith)

pub Within-suc : (n : ℕ) (o : Option ℕ) → Within n o → Within (suc n) o
Within-suc n none h = tt
Within-suc n (some k) h = (h.0, omega (arith, h.1))
