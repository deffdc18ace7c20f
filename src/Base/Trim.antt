-- ===== src/Base/Trim.antt =====
-- `str::trim`, on character codes
use mathlib.Core.List.{List, [], ◌∷◌, reverse}
use Prim.Native.Nat.{ℕ}
use mathlib.Core.Bool.{Bool, ◌||◌, ◌&&◌}
use r_wg.Base.{if◌then◌else◌, leb, ◌==◌}

-- Unicode's White_Space.
unfoldable pub is_whitespace : ℕ → Bool
is_whitespace c =
    (leb 9 c && leb c 13)
    || c == 32
    || c == 133
    || c == 160
    || c == 5760
    || (leb 8192 c && leb c 8202)
    || c == 8232
    || c == 8233
    || c == 8239
    || c == 8287
    || c == 12288

unfoldable pub trim_start : List ℕ → List ℕ
unfolding is_whitespace
trim_start [] = []
trim_start (c ∷ s) = let rest = trim_start s in if is_whitespace c then rest else c ∷ s

unfoldable pub trim : List ℕ → List ℕ
unfolding trim_start
trim s = reverse (trim_start (reverse (trim_start s)))
