-- ===== src/Base/Bits.antt =====
-- `raw & (MAX << shift)` as arithmetic, at every width.
use Prim.Native.Nat.{
  ℕ, zero, suc, ◌+◌, ◌-◌, ◌*◌, ◌/◌, ◌%◌, ◌^◌, ◌≤◌, ◌<◌, min, bit_and, digits, bit_and-bitwise,
}
use Prim.Native.Nat.add
use mathlib.Core.Path.{◌≡◌, refl, ap, sym, ◌∙◌}
use native.Mathlib.Omega.{arith}
use native.Mathlib.Nat.{
  pow-suc, pow-succ', one-le-pow, mul-add-mod_self_left, mod-eq_of_lt, div-div-eq-div-mul,
}

-- `bit_and` as the library defines it, with the fuel as an argument.
abbrev conj : ℕ → ℕ → ℕ → ℕ
conj fuel x y = digits (λ _. 0) min fuel x y

-- Any fuel from `x` on gives the result that `x` gives.
conj_stable : (k fuel x y : ℕ) → fuel ≤ k → x ≤ fuel → conj fuel x y ≡ conj x x y
conj_stable k zero zero y small enough = refl
conj_stable k zero (suc x) y small enough = elim enough [ ]
conj_stable k (suc fuel) zero y small enough = refl
conj_stable zero (suc fuel) (suc x) y small enough = elim small [ ]
conj_stable (suc k) (suc fuel) (suc x) y small enough =
    let down = conj_stable k fuel (suc x / 2) (y / 2) (omega arith) (omega arith) in
    let self = conj_stable k x (suc x / 2) (y / 2) (omega arith) (omega arith) in
    omega (arith, down, self)

nothing-bit_and : (y : ℕ) → bit_and 0 y ≡ 0
nothing-bit_and y = bit_and-bitwise 0 y

-- The lowest digit of a conjunction, and the rest.
bit_and_halves : (x y : ℕ) → bit_and x y ≡ 2 * bit_and (x / 2) (y / 2) + min (x % 2) (y % 2)
bit_and_halves zero y = omega (arith, nothing-bit_and y, nothing-bit_and (y / 2))
bit_and_halves (suc x) y =
    let whole = bit_and-bitwise (suc x) y in
    let halves = bit_and-bitwise (suc x / 2) (y / 2) in
    let fuel = conj_stable x x (suc x / 2) (y / 2) (omega arith) (omega arith) in
    omega (arith, whole, halves, fuel)

-- Masking by all ones changes nothing.
bit_and_ones : (d a : ℕ) → a < 2 ^ d → bit_and a (2 ^ d - 1) ≡ a
bit_and_ones zero a h = ground (arith, nothing-bit_and 0)
bit_and_ones (suc d) a h = omega (
  arith,
  bit_and_halves a (2 ^ suc d - 1),
  ap (bit_and (a / 2))
      (let e : (2 ^ suc d - 1) / 2 ≡ 2 ^ d - 1 = omega (arith, pow-suc 2 d, one-le-pow d 2) in e),
  bit_and_ones d (a / 2) (omega (arith, pow-suc 2 d)),
  pow-suc 2 d,
  one-le-pow d 2,
)

pub div-pow-suc : (a s : ℕ) → a / 2 ^ suc s ≡ a / 2 / 2 ^ s
div-pow-suc a s = rw (pow-succ' 2 s) (sym (div-div-eq-div-mul a 2 (2 ^ s)))

-- A shift splits into two.
pub pow_add : (m n : ℕ) → 2 ^ (m + n) ≡ 2 ^ m * 2 ^ n
pow_add zero n = rw add.zero (omega arith)
pow_add (suc m) n = rw (add.suc m n, pow-suc 2 (m + n), pow_add m n, pow-suc 2 m) (omega arith)

pub div-pow-add : (a m n : ℕ) → a / 2 ^ (m + n) ≡ a / 2 ^ m / 2 ^ n
div-pow-add a m n = rw (pow_add m n) (sym (div-div-eq-div-mul a (2 ^ m) (2 ^ n)))

mul-pow-suc : (q s : ℕ) → q * 2 ^ suc s ≡ 2 * (q * 2 ^ s)
mul-pow-suc q s = omega (arith, ap (λ (t : ℕ). q * t) (pow-suc 2 s))

half_mask : (p q : ℕ) → (2 * p - 2 * q) / 2 ≡ p - q
half_mask p q = omega arith

-- Masking by `d` ones above `s` zeros clears the `s` low bits.
bit_and_high :
    (s d a : ℕ) → a < 2 ^ d * 2 ^ s → bit_and a (2 ^ d * 2 ^ s - 2 ^ s) ≡ a / 2 ^ s * 2 ^ s
bit_and_high zero d a h =
    rw (let e : 2 ^ d * 2 ^ 0 - 2 ^ 0 ≡ 2 ^ d - 1 = omega arith in e)
      (omega (arith, bit_and_ones d a (omega arith)))
bit_and_high (suc s) d a h =
    rw
      (
        let e : 2 ^ d * 2 ^ suc s - 2 ^ suc s ≡ 2 * (2 ^ d * 2 ^ s) - 2 * 2 ^ s =
              omega (arith, mul-pow-suc (2 ^ d) s, pow-suc 2 s) in
            e,
        bit_and_halves a (2 * (2 ^ d * 2 ^ s) - 2 * 2 ^ s),
        half_mask (2 ^ d * 2 ^ s) (2 ^ s),
        bit_and_high s d (a / 2) (omega (arith, mul-pow-suc (2 ^ d) s)),
        div-pow-suc a s,
      )
      (omega (arith, mul-pow-suc (a / 2 / 2 ^ s) s))

-- `MAX << s` in a word of `d + s` bits.
wrap_mask : (m q : ℕ) → 0 < q → q ≤ m → (m - 1) * q % m ≡ m - q
wrap_mask zero q pos fits = absurd (omega arith)
wrap_mask (suc m) zero pos fits = absurd (omega arith)
wrap_mask (suc m) (suc q) pos fits =
    rw (let e : (suc m - 1) * suc q ≡ suc m * q + (m - q) = unroll m q (omega arith) in e)
      (mul-add-mod_self_left (suc m) q (m - q) ∙ mod-eq_of_lt (omega arith) ∙ (omega arith))
  where
    unroll : (m q : ℕ) → q ≤ m → (suc m - 1) * suc q ≡ suc m * q + (m - q)
    unroll m q h = rw (let e : suc m - 1 ≡ m = omega arith in e) (omega arith)

shifted_mask : (d s : ℕ) → (2 ^ d * 2 ^ s - 1) * 2 ^ s % (2 ^ d * 2 ^ s) ≡ 2 ^ d * 2 ^ s - 2 ^ s
shifted_mask d s =
    wrap_mask (2 ^ d * 2 ^ s) (2 ^ s) (one-le-pow s 2 (omega arith))
      (let one = one-le-pow d 2 (omega arith) in grind arith)

-- The same for the mask that the code shifts into place.
pub bit_and_shifted :
    (w s a : ℕ) → s ≤ w → a < 2 ^ w → bit_and a ((2 ^ w - 1) * 2 ^ s % 2 ^ w) ≡ a / 2 ^ s * 2 ^ s
bit_and_shifted w s a h k =
    let split : 2 ^ w ≡ 2 ^ (w - s) * 2 ^ s =
      ap (λ (n : ℕ). 2 ^ n) (omega arith) ∙ pow_add (w - s) s in
    rw (split, shifted_mask (w - s) s) (bit_and_high s (w - s) a (omega (arith, split)))
