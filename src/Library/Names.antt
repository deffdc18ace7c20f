-- ===== src/Library/Names.antt =====
-- `next_available_name` and `reserve_unique_name`
use mathlib.Core.List.{List, [], ◌∷◌, ◌++◌}
use r_wg.Base.{ℕ, zero, suc, ◌+◌, ◌/◌, ◌%◌, if◌then◌else◌, ltb, length}
use r_wg.Config.{Text}
use r_wg.Library.{contains}

-- The decimal digits of a number, in front of a text; `n + 1` rounds are enough for `n`.
unfoldable pub decimal_loop : ℕ → ℕ → Text → Text
decimal_loop zero n digits = digits
decimal_loop (suc fuel) n digits =
    let more = (48 + n % 10) ∷ digits in
    let rest = decimal_loop fuel (n / 10) more in if ltb n 10 then more else rest

unfoldable pub decimal : ℕ → Text
unfolding decimal_loop
decimal n = decimal_loop (suc n) n []

-- `format!("{base}-{idx}")`
unfoldable pub numbered : Text → ℕ → Text
unfolding decimal
numbered base idx = base ++ (45 ∷ decimal idx)

-- The names of a HashSet are distinct, so that its size is the length of the list.
unfoldable pub search_name : List Text → Text → ℕ → ℕ → Text
unfolding numbered
search_name names base zero idx = numbered base (length names + 1)
search_name names base (suc left) idx =
    let later = search_name names base left (suc idx) in
    if contains names (numbered base idx) then later else numbered base idx

-- `for idx in 2..1000`
unfoldable pub next_available_name : List Text → Text → Text
unfolding search_name
next_available_name names base = if contains names base then search_name names base 998 2 else base

-- The name, and the names in use with it.
unfoldable pub reserve_unique_name : List Text → Text → Text × List Text
unfolding next_available_name
reserve_unique_name names base =
    let candidate = next_available_name names base in
    (candidate, if contains names candidate then names else candidate ∷ names)
