-- ===== src/Parser/Keys.antt =====
-- Keys: `Key::from_str` of src/core/config/types.rs. The decoder of base64 is a parameter.
use mathlib.Core.List.{[], ◌∷◌}
use r_wg.Base.{
  ℕ, zero, suc, ◌+◌, ◌&&◌, ◌||◌, Option, none, some, if◌then◌else◌, is_empty, ltb, ◌==◌, length,
}
use r_wg.Base.Result.{Result, ok, err, ◌>>=◌}
use r_wg.Base.Trim.{trim}
use r_wg.Config.{Text, Key}
use r_wg.Parser.Numbers.{parse_hex}

-- `panics` stands for the panic of a slice that ends inside a character.
pub data KeyError : Type 0 where
  key_is_empty invalid_hex_key invalid_base64_key invalid_key_length panics : KeyError

-- The bytes of a character, and of a text, in UTF-8.
abbrev pub utf8_width : ℕ → ℕ
utf8_width c = if ltb c 128 then 1 else (if ltb c 2048 then 2 else (if ltb c 65536 then 3 else 4))

abbrev pub utf8_length : Text → ℕ
utf8_length [] = 0
utf8_length (c ∷ s) = utf8_width c + utf8_length s

abbrev pub pair_value : Option ℕ → Result KeyError ℕ
pair_value none = err KeyError.invalid_hex_key
pair_value (some n) = ok n

-- Two bytes of the text, as one of the key. A character of two bytes is no number.
unfoldable pub first_pair : Text → Result KeyError ℕ
unfolding parse_hex
first_pair [] = err KeyError.panics
first_pair (c ∷ []) =
    if utf8_width c == 2 then err KeyError.invalid_hex_key else err KeyError.panics
first_pair (c ∷ d ∷ s) =
    if utf8_width c == 2
    then err KeyError.invalid_hex_key
    else (if utf8_width c == 1 && utf8_width d == 1
        then pair_value (parse_hex 8 (c ∷ d ∷ []))
        else err KeyError.panics)

abbrev pub after_pair : Text → Text
after_pair [] = []
after_pair (c ∷ []) = []
after_pair (c ∷ d ∷ s) = s

unfoldable pub hex_bytes : ℕ → Text → Result KeyError Key
unfolding first_pair
hex_bytes zero s = ok []
hex_bytes (suc n) s = first_pair s >>= λ b. hex_bytes n (after_pair s) >>= λ rest. ok (b ∷ rest)

abbrev pub of_length : Option Key → Result KeyError Key
of_length none = err KeyError.invalid_base64_key
of_length (some k) = if length k == 32 then ok k else err KeyError.invalid_key_length

module _ (decode : Text → Option Key) where
  -- `Key::from_str`
  unfoldable pub parse_key : Text → Result KeyError Key
  unfolding trim hex_bytes
  parse_key s =
      let value = trim s in
      if is_empty value
      then err KeyError.key_is_empty
      else (if utf8_length value == 64
          then hex_bytes 32 value
          else (if utf8_length value == 43 || utf8_length value == 44
              then of_length (decode value)
              else err KeyError.invalid_key_length))
