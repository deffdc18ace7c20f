-- ===== src/Library/Fresh.antt =====
-- When the name that the library picks is not in use.
use mathlib.Core.Path.{◌≡◌, ap}
use mathlib.Core.Logic.{inl, inr}
use mathlib.Core.List.{List}
use native.Mathlib.Omega.{arith}
use r_wg.Base.{ℕ, zero, suc, ◌+◌, ◌<◌, ◌≤◌, true, false, Bool-cases, le_or_lt}
use r_wg.Config.{Text}
use r_wg.Library.{contains}
use r_wg.Library.Names.{numbered, search_name, next_available_name}

later_lem :
    (names : List Text) (base : Text) (idx i : ℕ)
    → idx ≤ i
    → contains names (numbered base i) ≡ false
    → contains names (numbered base idx) ≡ true
    → suc idx ≤ i
later_lem names base idx i h f e = elim (le_or_lt (suc idx) i) [
  | inl k ↦ k
  | inr k ↦
      let same : idx ≡ i = omega arith in
      let t = ap (λ j. contains names (numbered base j)) same in absurd (cc)
]

search_lem :
    (names : List Text) (base : Text) (left idx i : ℕ)
    → idx ≤ i
    → i < idx + left
    → contains names (numbered base i) ≡ false
    → contains names (search_name names base left idx) ≡ false
unfolding search_name
search_lem names base zero idx i h k f = absurd (omega arith)
search_lem names base (suc left) idx i h k f =
    elim (Bool-cases (contains names (numbered base idx))) [
      | inr e ↦ rw e e
      | inl e ↦ rw e (
          search_lem names base left (suc idx) i (later_lem names base idx i h f e) (omega arith) f)
    ]

-- If one of the numbers 2 to 999 makes a name that is not in use, then the picked name is not in
-- use, whether or not the base name is.
pub next_available_name-IsFresh :
    (names : List Text) (base : Text) (i : ℕ)
    → 2 ≤ i
    → i < 1000
    → contains names (numbered base i) ≡ false
    → contains names (next_available_name names base) ≡ false
unfolding next_available_name
next_available_name-IsFresh names base i h k f = elim (Bool-cases (contains names base)) [
  | inr e ↦ rw e e
  | inl e ↦ rw e (search_lem names base 998 2 i h (omega arith) f)
]
