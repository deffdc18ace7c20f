-- ===== src/Parser/HexText.antt =====
-- A key that is written in hexadecimal is read back.
use mathlib.Core.List.{[], ◌∷◌, reverse, reverse-cons, reverse-reverse}
use r_wg.Base.{
  ℕ, ◌+◌, ◌*◌, ◌/◌, ◌%◌, ◌^◌, ◌<◌, ◌≡◌, refl, sym, ◌∙◌, ap, subst, false, ◌&&◌, ◌||◌, Option, none,
  some, if◌then◌else◌, is_empty, ltb, lt→ltb, ◌==◌, length, All, All-append, arith,
}
use r_wg.Base.Result.{ok, err}
use r_wg.Base.Trim.{is_whitespace, trim_start, trim}
use r_wg.Config.{Text, Key}
use r_wg.Parser.Keys.{
  KeyError, utf8_width, utf8_length, pair_value, first_pair, hex_bytes, of_length, parse_key,
}
use r_wg.Parser.Numbers.{
  hex_digit, next_value, digits_value, bounded, from_digits, from_radix, parse_hex,
}

abbrev pub IsByte : ℕ → Type 0
IsByte b = b < 2 ^ 8

-- 32 bytes.
abbrev pub IsKey : Key → Type 0
IsKey k = (length k ≡ 32) × All IsByte k

abbrev pub hex_char : ℕ → ℕ
hex_char d = if ltb d 10 then d + 48 else d + 87

-- Two lower case digits of each byte, as `{:02x}` prints it.
abbrev pub hex_text : Key → Text
hex_text [] = []
hex_text (b ∷ k) = hex_char (b / 16) ∷ hex_char (b % 16) ∷ hex_text k

hex_digit-hex_char : (d : ℕ) → d < 16 → hex_digit (hex_char d) ≡ some d
hex_digit-hex_char d h = ground arith

-- No sign, no blank and nothing of two bytes.
abbrev Plain : ℕ → Type 0
Plain c = (is_whitespace c ≡ false) × (utf8_width c ≡ 1) × ((c == 43) ≡ false)

hex_char-Plain : (d : ℕ) → d < 16 → Plain (hex_char d)
unfolding is_whitespace
hex_char-Plain d h = (ground arith, ground arith, ground arith)

high_lem : (b : ℕ) → IsByte b → b / 16 < 16
high_lem b h = omega (arith, h)

low_lem : (b : ℕ) → b % 16 < 16
low_lem b = omega arith

whole_lem : (b : ℕ) → (0 * 16 + b / 16) * 16 + b % 16 ≡ b
whole_lem b = omega arith

digits_lem :
    (c d x y : ℕ)
    → hex_digit c ≡ some x
    → hex_digit d ≡ some y
    → digits_value hex_digit 16 (some 0) (c ∷ d ∷ []) ≡ some ((0 * 16 + x) * 16 + y)
unfolding digits_value
digits_lem c d x y e f =
    ap (λ o. digits_value hex_digit 16 (next_value 16 0 o) (d ∷ [])) e
    ∙ ap (λ o. next_value 16 (0 * 16 + x) o) f

parse_lem :
    (c d b : ℕ)
    → (c == 43) ≡ false
    → digits_value hex_digit 16 (some 0) (c ∷ d ∷ []) ≡ some b
    → IsByte b
    → parse_hex 8 (c ∷ d ∷ []) ≡ some b
unfolding parse_hex from_radix from_digits
parse_lem c d b p e h =
    ap
      (λ t.
        if t then from_digits hex_digit 16 8 (d ∷ []) else from_digits hex_digit 16 8 (c ∷ d ∷ []))
      p
    ∙ ap (bounded 8) e
    ∙ ap (λ t. if t then some b else none) (lt→ltb b (2 ^ 8) h)

byte_lem : (b : ℕ) → IsByte b → parse_hex 8 (hex_char (b / 16) ∷ hex_char (b % 16) ∷ []) ≡ some b
byte_lem b h =
    let high = high_lem b h in
    let low = low_lem b in
    parse_lem (hex_char (b / 16)) (hex_char (b % 16)) b (hex_char-Plain (b / 16) high).2
      (digits_lem (hex_char (b / 16)) (hex_char (b % 16)) (b / 16) (b % 16)
          (hex_digit-hex_char (b / 16) high) (hex_digit-hex_char (b % 16) low)
        ∙ ap some (whole_lem b))
      h

first_pair_lem :
    (c d b : ℕ) (rest : Text)
    → utf8_width c ≡ 1
    → utf8_width d ≡ 1
    → parse_hex 8 (c ∷ d ∷ []) ≡ some b
    → first_pair (c ∷ d ∷ rest) ≡ ok b
unfolding first_pair
first_pair_lem c d b rest p q e =
    ap
      (λ w.
        (if w == 2
          then err KeyError.invalid_hex_key
          else (if w == 1 && utf8_width d == 1
              then pair_value (parse_hex 8 (c ∷ d ∷ []))
              else err KeyError.panics)))
      p
    ∙ ap (λ w. (if w == 1 then pair_value (parse_hex 8 (c ∷ d ∷ [])) else err KeyError.panics)) q
    ∙ ap pair_value e

pair_lem :
    (b : ℕ)
    → IsByte b
    → (rest : Text) → first_pair (hex_char (b / 16) ∷ hex_char (b % 16) ∷ rest) ≡ ok b
pair_lem b h rest =
    first_pair_lem (hex_char (b / 16)) (hex_char (b % 16)) b rest
      (hex_char-Plain (b / 16) (high_lem b h)).1 (hex_char-Plain (b % 16) (low_lem b)).1
      (byte_lem b h)

hex_bytes_lem : (k : Key) → All IsByte k → hex_bytes (length k) (hex_text k) ≡ ok k
unfolding hex_bytes
hex_bytes_lem [] h = refl
hex_bytes_lem (b ∷ k) h = rw (pair_lem b h.0 (hex_text k), hex_bytes_lem k h.1) refl

hex_text-Plain : (k : Key) → All IsByte k → All Plain (hex_text k)
hex_text-Plain [] h = tt
hex_text-Plain (b ∷ k) h = (
  hex_char-Plain (b / 16) (high_lem b h.0),
  (hex_char-Plain (b % 16) (low_lem b), hex_text-Plain k h.1),
)

utf8_length_lem : (s : Text) → All Plain s → utf8_length s ≡ length s
utf8_length_lem [] h = refl
utf8_length_lem (c ∷ s) h = omega (arith, h.0.1, utf8_length_lem s h.1)

length-hex_text : (k : Key) → length (hex_text k) ≡ 2 * length k
length-hex_text [] = refl
length-hex_text (b ∷ k) = omega (arith, length-hex_text k)

trim_start_lem : (s : Text) → All Plain s → trim_start s ≡ s
unfolding trim_start
trim_start_lem [] h = refl
trim_start_lem (c ∷ s) h = rw h.0.0 refl

All-reverse : (s : Text) → All Plain s → All Plain (reverse s)
All-reverse [] h = tt
All-reverse (c ∷ s) h =
    subst (All Plain) (sym (reverse-cons c s))
      (All-append Plain (reverse s) (c ∷ []) (All-reverse s h.1) (h.0, tt))

trim_lem : (s : Text) → All Plain s → trim s ≡ s
unfolding trim
trim_lem s h =
    ap (λ t. reverse (trim_start (reverse t))) (trim_start_lem s h)
    ∙ ap reverse (trim_start_lem (reverse s) (All-reverse s h))
    ∙ reverse-reverse s

module _ (decode : Text → Option Key) where
  nonempty_lem : (k : Key) → length k ≡ 32 → is_empty (hex_text k) ≡ false
  nonempty_lem [] h = absurd (ground (arith, h))
  nonempty_lem (b ∷ k) h = refl

  value_lem :
      (k : Key) (value : Text)
      → value ≡ hex_text k
      → IsKey k
      → (if is_empty value
          then err KeyError.key_is_empty
          else (if utf8_length value == 64
              then hex_bytes 32 value
              else (if utf8_length value == 43 || utf8_length value == 44
                  then of_length (decode value)
                  else err KeyError.invalid_key_length)))
        ≡ ok k
  value_lem k value e h =
      let plain = hex_text-Plain k h.1 in
      let size : utf8_length (hex_text k) ≡ 64 =
        utf8_length_lem (hex_text k) plain ∙ length-hex_text k ∙ ap (λ n. 2 * n) h.0 in
      rw (e, nonempty_lem k h.0, size)
        (subst (λ n. hex_bytes n (hex_text k) ≡ ok k) h.0 (hex_bytes_lem k h.1))

  -- A key of 32 bytes that is written as 64 lower case hexadecimal digits is read back as itself,
  -- whatever the decoder of base64 is.
  pub parse_key-hex_text : (k : Key) → IsKey k → parse_key decode (hex_text k) ≡ ok k
  unfolding parse_key
  parse_key-hex_text k h =
      value_lem k (trim (hex_text k)) (trim_lem (hex_text k) (hex_text-Plain k h.1)) h
