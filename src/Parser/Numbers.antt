-- ===== src/Parser/Numbers.antt =====
-- `u8`, `u16` and `u32` from text, as the standard library reads them
use mathlib.Core.List.{[], ◌∷◌}
use r_wg.Base.{ℕ, ◌+◌, ◌-◌, ◌*◌, ◌^◌, ◌&&◌, Option, none, some, if◌then◌else◌, leb, ltb, ◌==◌}
use r_wg.Config.{Text}

abbrev pub digit : ℕ → Option ℕ
digit c = if leb 48 c && leb c 57 then some (c - 48) else none

abbrev pub hex_letter : ℕ → Option ℕ
hex_letter c =
    if leb 97 c && leb c 102
    then some (c - 87)
    else (if leb 65 c && leb c 70 then some (c - 55) else none)

abbrev pub hex_digit : ℕ → Option ℕ
hex_digit c = if leb 48 c && leb c 57 then some (c - 48) else hex_letter c

abbrev pub next_value : ℕ → ℕ → Option ℕ → Option ℕ
next_value radix value none = none
next_value radix value (some d) = some (value * radix + d)

unfoldable pub digits_value : (ℕ → Option ℕ) → ℕ → Option ℕ → Text → Option ℕ
digits_value read radix value [] = value
digits_value read radix none (c ∷ s) = none
digits_value read radix (some v) (c ∷ s) = digits_value read radix (next_value radix v (read c)) s

abbrev pub bounded : ℕ → Option ℕ → Option ℕ
bounded bits none = none
bounded bits (some v) = if ltb v (2 ^ bits) then some v else none

-- No digit is an error.
unfoldable pub from_digits : (ℕ → Option ℕ) → ℕ → ℕ → Text → Option ℕ
unfolding digits_value
from_digits read radix bits [] = none
from_digits read radix bits (c ∷ s) = bounded bits (digits_value read radix (some 0) (c ∷ s))

-- A sign `+` may stand in front.
unfoldable pub from_radix : (ℕ → Option ℕ) → ℕ → ℕ → Text → Option ℕ
unfolding from_digits
from_radix read radix bits [] = none
from_radix read radix bits (c ∷ s) =
    if c == 43 then from_digits read radix bits s else from_digits read radix bits (c ∷ s)

unfoldable pub parse_uint : ℕ → Text → Option ℕ
unfolding from_radix
parse_uint bits s = from_radix digit 10 bits s

unfoldable pub parse_hex : ℕ → Text → Option ℕ
unfolding from_radix
parse_hex bits s = from_radix hex_digit 16 bits s
