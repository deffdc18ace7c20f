-- ===== src/Base/Result.antt =====
-- `Result<A, E>` and `?`.
use mathlib.Core.Path.{◌≡◌, refl}
use mathlib.Core.Logic.{◌⊎◌, inl, inr}

pub data Result {ℓ} (E A : Type ℓ) : Type ℓ where
  ok : A → Result E A
  err : E → Result E A

infixl 5 ◌>>=◌ ◌>>◌
abbrev pub ◌>>=◌ {ℓ} : {E A B : Type ℓ} → Result E A → (A → Result E B) → Result E B
ok a >>= f = f a
err e >>= f = err e

abbrev pub ◌>>◌ {ℓ} : {E A B : Type ℓ} → Result E A → Result E B → Result E B
m >> n = m >>= λ _. n

abbrev pub map_ok {ℓ} : {E A B : Type ℓ} → (A → B) → Result E A → Result E B
map_ok f (ok a) = ok (f a)
map_ok f (err e) = err e

pub Result-cases {ℓ} :
    {E A : Type ℓ} (r : Result E A) → ((a : A) × (r ≡ ok a)) ⊎ ((e : E) × (r ≡ err e))
Result-cases (ok a) = inl (a, refl)
Result-cases (err e) = inr (e, refl)

-- A chain succeeds only if its first step does, and then the rest on what it returned.
module _ {ℓ} {E X Y : Type ℓ} where
  pub >>=-eq-ok :
      (first : Result E X) (rest : X → Result E Y) {y : Y}
      → first >>= rest ≡ ok y
      → (x : X) × (first ≡ ok x) × (rest x ≡ ok y)
  >>=-eq-ok (err e) rest h = cc
  >>=-eq-ok (ok x) rest h = (x, refl, h)

pub ok-injective {ℓ} : {E A : Type ℓ} {a b : A} → ◌≡◌ {A = Result E A} (ok a) (ok b) → a ≡ b
ok-injective h = cc h
