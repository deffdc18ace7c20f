-- ===== src/Base/Texts.antt =====
-- Literals and tests of `str`, on lists of character codes
use Prim.Native.Char.{code}
use Prim.Native.String.{String}
use mathlib.Core.Bool.{Bool, true, false, ◌&&◌}
use mathlib.Core.List.{List, [], ◌∷◌}
use r_wg.Base.{ℕ, ◌+◌, if◌then◌else◌, leb, ◌==◌}

-- The characters of a literal.
abbrev pub codes : String → List ℕ
codes String.[] = []
codes (String.◌∷◌ c s) = code c ∷ codes s

abbrev pub is_text : List ℕ → List ℕ → Bool
is_text [] [] = true
is_text (a ∷ s) (b ∷ t) = a == b && is_text s t
is_text [] (b ∷ t) = false
is_text (a ∷ s) [] = false

-- The prefix comes first.
abbrev pub starts_with : List ℕ → List ℕ → Bool
starts_with [] s = true
starts_with (a ∷ p) [] = false
starts_with (a ∷ p) (b ∷ s) = a == b && starts_with p s

abbrev pub lower : ℕ → ℕ
lower c = if leb 65 c && leb c 90 then c + 32 else c

abbrev pub to_ascii_lowercase : List ℕ → List ℕ
to_ascii_lowercase [] = []
to_ascii_lowercase (c ∷ s) = lower c ∷ to_ascii_lowercase s
