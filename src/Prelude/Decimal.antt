-- ===== src/Prelude/Decimal.antt =====
-- `std::stoi` on printed numbers.
use ivckolpak.Prelude.Tests.{ltb, Bool-cases}
use ivckolpak.Prelude.Bytes.{Bytes}
use ivckolpak.Prelude.Int.{pos}
use ivckolpak.Prelude.Text.{
  is_digit, skip_spaces, read_digits, read_number, scan_int, read_signed, stoi, dec_digits, decimal,
  as_int,
}
use Prim.Native.Nat.{ℕ, zero, suc, ◌+◌, ◌/◌, ◌%◌, ◌^◌, ◌<◌}
use mathlib.Core.Path.{◌≡◌, refl, ap, ◌∙◌}
use mathlib.Core.Logic.{inl, inr}
use mathlib.Core.Bool.{Bool, true, false}
use mathlib.Core.Option.{some}
use mathlib.Core.List.{[], ◌∷◌, ◌++◌}
use native.Mathlib.Omega.{arith}

-- Whether a text begins with a digit.
abbrev pub digit_first : Bytes → Bool
digit_first [] = false
digit_first (c ∷ cs) = is_digit c

-- What follows the digits of a number is not read.
read_digits-dec_digits :
    (fuel n : ℕ) (rest : Bytes)
    → n < fuel
    → read_digits 0 (dec_digits fuel n rest) ≡ read_digits n rest
unfolding read_digits dec_digits
read_digits-dec_digits zero n rest h = absurd (omega arith)
read_digits-dec_digits (suc fuel) n rest h = elim (Bool-cases (ltb n 10)) [
  | inl small ↦ ground arith
  | inr large ↦
      simp large (
        read_digits-dec_digits fuel (n / 10) ((b'0' + n % 10) ∷ rest) (ground arith) ∙ ground arith)
]

digit_first-dec_digits :
    (fuel n : ℕ) (c : ℕ) (rest : Bytes)
    → is_digit c ≡ true
    → digit_first (dec_digits fuel n (c ∷ rest)) ≡ true
unfolding dec_digits
digit_first-dec_digits zero n c rest h = h
digit_first-dec_digits (suc fuel) n c rest h = elim (Bool-cases (ltb n 10)) [
  | inl small ↦ ground arith
  | inr large ↦
      simp large (digit_first-dec_digits fuel (n / 10) (b'0' + n % 10) (c ∷ rest) (ground arith))
]

digit_first-decimal : (n : ℕ) (rest : Bytes) → digit_first (dec_digits (suc n) n rest) ≡ true
unfolding dec_digits
digit_first-decimal n rest = elim (Bool-cases (ltb n 10)) [
  | inl small ↦ ground arith
  | inr large ↦ simp large (digit_first-dec_digits n (n / 10) (b'0' + n % 10) rest (ground arith))
]

dec_digits-append :
    (fuel n : ℕ) (rest t : Bytes) → dec_digits fuel n rest ++ t ≡ dec_digits fuel n (rest ++ t)
unfolding dec_digits
dec_digits-append zero n rest t = refl
dec_digits-append (suc fuel) n rest t = elim (Bool-cases (ltb n 10)) [
  | inl small ↦ simp small refl
  | inr large ↦ simp large (dec_digits-append fuel (n / 10) ((b'0' + n % 10) ∷ rest) t)
]

scan_int-digit :
    (s : Bytes)
    → digit_first s ≡ true
    → scan_int s ≡ some (pos (read_digits 0 s).0, (read_digits 0 s).1)
unfolding scan_int read_signed skip_spaces read_number
scan_int-digit [] h = absurd cc
scan_int-digit (c ∷ cs) h = ground arith

read_digits-stop : (n : ℕ) (t : Bytes) → digit_first t ≡ false → read_digits n t ≡ (n, t)
unfolding read_digits
read_digits-stop n [] h = refl
read_digits-stop n (c ∷ cs) h = simp h refl

as_int-pos : (n : ℕ) (t : Bytes) → n < 2 ^ 31 → as_int (some (pos n, t)) ≡ some (pos n)
unfolding as_int
as_int-pos n t h = ground arith

-- A printed number of 31 bits is read back, whatever follows it that is not a digit.
pub stoi-decimal :
    (n : ℕ) (t : Bytes) → n < 2 ^ 31 → digit_first t ≡ false → stoi (decimal n ++ t) ≡ some (pos n)
unfolding stoi decimal
stoi-decimal n t small h =
    let digits = read_digits-dec_digits (suc n) n t (omega arith) ∙ read_digits-stop n t h in
    ap stoi (dec_digits-append (suc n) n [] t)
    ∙ ap as_int (scan_int-digit (dec_digits (suc n) n t) (digit_first-decimal n t))
    ∙ ap (λ r. as_int (some (pos r.0, r.1))) digits
    ∙ as_int-pos n t small
