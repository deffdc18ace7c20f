-- ===== src/Engine/Post.antt =====
-- What holds of the result and of the worker and its world after an action, and its rules.
use mathlib.Core.Path.{◌≡◌, refl}
use r_wg.Base.{Bool, true, false, if◌then◌else◌}
use r_wg.Base.Result.{Result, ok, err}
use r_wg.Engine.{Sys, Action, EngineError, ◌>>=◌, continue, when}

abbrev pub Post : {A : Type 0} → (Result EngineError A → Sys → Type 0) → Action A → Sys → Type 0
Post P m s = P (m s).0 (m s).1

-- It succeeds, and I holds.
abbrev pub Always : {A : Type 0} → (Sys → Type 0) → Result EngineError A → Sys → Type 0
Always I (ok a) s = I s
Always I (err e) s = ⊥

pub Post-if :
    {A : Type 0} (P : Result EngineError A → Sys → Type 0) (b : Bool) (m n : Action A) (s : Sys)
    → (b ≡ true → Post P m s)
    → (b ≡ false → Post P n s)
    → Post P (if b then m else n) s
Post-if P true m n s h k = h refl
Post-if P false m n s h k = k refl

-- A chain, by what holds after its first action.
Post-chain_lem :
    {A B : Type 0} (P : Result EngineError B → Sys → Type 0)
    (Q : Result EngineError A → Sys → Type 0) (r : Result EngineError A) (f : A → Action B)
    (t : Sys)
    → Q r t
    → ((a : A) → Q (ok a) t → Post P (f a) t)
    → ((e : EngineError) → Q (err e) t → P (err e) t)
    → P (continue r f t).0 (continue r f t).1
Post-chain_lem P Q (ok a) f t q h k = h a q
Post-chain_lem P Q (err e) f t q h k = k e q

pub Post-chain :
    {A B : Type 0} (P : Result EngineError B → Sys → Type 0)
    (Q : Result EngineError A → Sys → Type 0) (m : Action A) (f : A → Action B) (s : Sys)
    → Post Q m s
    → ((a : A) (t : Sys) → Q (ok a) t → Post P (f a) t)
    → ((e : EngineError) (t : Sys) → Q (err e) t → P (err e) t)
    → Post P (m >>= f) s
Post-chain P Q m f s q h k =
    Post-chain_lem P Q (m s).0 f (m s).1 q (λ a. h a (m s).1) (λ e. k e (m s).1)

pub Post-Always :
    {A B : Type 0} (P : Result EngineError B → Sys → Type 0) (I : Sys → Type 0) (m : Action A)
    (f : A → Action B) (s : Sys)
    → Post (Always I) m s
    → ((a : A) (t : Sys) → I t → Post P (f a) t)
    → Post P (m >>= f) s
Post-Always P I m f s q h = Post-chain P (Always I) m f s q h (λ e t k. absurd k)

-- An action that is not run keeps everything.
pub Post-when :
    (I : Sys → Type 0) (b : Bool) (m : Action Unit) (s : Sys)
    → b ≡ false
    → I s
    → Post (Always I) (when b m) s
Post-when I true m s e h = absurd (cc)
Post-when I false m s e h = h
