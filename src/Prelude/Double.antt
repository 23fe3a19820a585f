-- ===== src/Prelude/Double.antt =====
-- `double` as its IEEE 754 bit pattern, with the comparisons that the program makes. Arithmetic on
-- doubles is a parameter of the functions that need it.
use Prim.Native.Nat.{ℕ, ◌^◌, ◌%◌}
use mathlib.Core.Path.{◌≡◌, refl}
use mathlib.Core.Bool.{Bool, true, false, not, ◌&&◌, ◌||◌}
use native.Mathlib.Omega.{arith}
use ivckolpak.Prelude.Tests.{ltb, leb, ◌==◌, if◌then◌else◌}
use ivckolpak.Prelude.Int.{ℤ}

abbrev pub Double : Type 0
Double = ℕ

abbrev pub magnitude : Double → ℕ
magnitude x = x % 2 ^ 63

abbrev pub is_negative : Double → Bool
is_negative x = leb (2 ^ 63) x

abbrev pub is_nan : Double → Bool
is_nan x = ltb 0x7ff0_0000_0000_0000 (magnitude x)

-- `x < y`: false at a NaN; the two zeros are equal; a negative number is larger as its magnitude
-- is smaller.
unfoldable pub ltb_double : Double → Double → Bool
ltb_double x y =
    if is_nan x || is_nan y
    then false
    else if is_negative x
    then (if is_negative y
        then ltb (magnitude y) (magnitude x)
        else not (magnitude x == 0 && magnitude y == 0))
    else if is_negative y
    then false
    else ltb (magnitude x) (magnitude y)

-- `x <= y`
unfoldable pub leb_double : Double → Double → Bool
unfolding ltb_double
leb_double x y = if is_nan x || is_nan y then false else not (ltb_double y x)

-- `x == 0.0`
unfoldable pub is_zero_double : Double → Bool
is_zero_double x = magnitude x == 0

abbrev pub zero_double : Double
zero_double = 0

pub ltb_double_irrefl : (x : Double) → ltb_double x x ≡ false
unfolding ltb_double
ltb_double_irrefl x = ground arith

-- A number that is above zero is not zero.
pub pos_not_zero : (x : Double) → ltb_double zero_double x ≡ true → is_zero_double x ≡ false
unfolding ltb_double is_zero_double
pos_not_zero x h = ground arith

one_and_a_half : ltb_double 0x3ff0_0000_0000_0000 0x3ff8_0000_0000_0000 ≡ true
unfolding ltb_double
one_and_a_half = refl

-- The arithmetic on doubles that the program performs, as an interface.
pub record FloatOps : Type 0 where
  pub sub : Double → Double → Double
  pub mul : Double → Double → Double
  pub div : Double → Double → Double
  pub abs : Double → Double
  pub of_int : ℤ → Double
  pub to_int : Double → ℤ
