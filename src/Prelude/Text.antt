-- ===== src/Prelude/Text.antt =====
-- The operations of `std::string`, `strtoul`, `sscanf` and `printf` that the program uses, over bytes.
use ivckolpak.Prelude.Tests.{ltb, leb, ◌==◌, if◌then◌else◌}
use ivckolpak.Prelude.Lists.{take, drop}
use ivckolpak.Prelude.Int.{ℤ, pos, negsuc, leb_ℤ}
use ivckolpak.Prelude.Bytes.{Bytes, codes}
use Prim.Native.Nat.{ℕ, zero, suc, ◌+◌, ◌-◌, ◌*◌, ◌/◌, ◌%◌, ◌^◌}
use mathlib.Core.Path.{◌≡◌, refl}
use mathlib.Core.Bool.{Bool, true, false, ◌&&◌, ◌||◌}
use mathlib.Core.Option.{Option, none, some}
use mathlib.Core.List.{[], ◌∷◌}

-- `s.find(c, from)`, where the bytes are those from position `i` on.
unfoldable pub find_at : ℕ → ℕ → Bytes → Option ℕ
find_at c i [] = none
find_at c i (x ∷ xs) = if x == c then some i else find_at c (suc i) xs

unfoldable pub find : ℕ → Bytes → ℕ → Option ℕ
unfolding find_at
find c s from = find_at c from (drop from s)

unfoldable pub starts_with : Bytes → Bytes → Bool
starts_with [] s = true
starts_with (p ∷ ps) [] = false
starts_with (p ∷ ps) (x ∷ xs) = p == x && starts_with ps xs

-- `s.find(pattern, from)`
unfoldable pub find_text_at : Bytes → ℕ → Bytes → Option ℕ
unfolding starts_with
find_text_at pattern i [] = if starts_with pattern [] then some i else none
find_text_at pattern i (x ∷ xs) =
    if starts_with pattern (x ∷ xs) then some i else find_text_at pattern (suc i) xs

unfoldable pub find_text : Bytes → Bytes → ℕ → Option ℕ
unfolding find_text_at
find_text pattern s from = find_text_at pattern from (drop from s)

-- `s.substr(pos, n)`, for a position within the text
unfoldable pub substr : Bytes → ℕ → ℕ → Bytes
substr s from n = take n (drop from s)

abbrev pub is_space : ℕ → Bool
is_space c = c == b' ' || (leb 9 c && leb c 13)

abbrev pub is_digit : ℕ → Bool
is_digit c = leb b'0' c && leb c b'9'

-- The value of a hexadecimal digit.
unfoldable pub hex_value : ℕ → Option ℕ
hex_value c =
    if leb b'0' c && leb c b'9'
    then some (c - b'0')
    else if leb b'A' c && leb c b'F'
    then some (c - 55)
    else if leb b'a' c && leb c b'f'
    then some (c - 87)
    else none

unfoldable pub skip_spaces : Bytes → Bytes
skip_spaces [] = []
skip_spaces (c ∷ cs) = if is_space c then skip_spaces cs else c ∷ cs

-- The digits in front, into an accumulator, and what follows them.
unfoldable pub read_digits : ℕ → Bytes → ℕ × Bytes
read_digits n [] = (n, [])
read_digits n (c ∷ cs) = if is_digit c then read_digits (n * 10 + (c - b'0')) cs else (n, c ∷ cs)

-- At least one digit.
unfoldable pub read_number : Bytes → Option (ℕ × Bytes)
unfolding read_digits
read_number [] = none
read_number (c ∷ cs) = if is_digit c then some (read_digits 0 (c ∷ cs)) else none

abbrev negate : ℕ → ℤ
negate zero = pos 0
negate (suc n) = negsuc n

abbrev signed : Bool → Option (ℕ × Bytes) → Option (ℤ × Bytes)
signed minus none = none
signed true (some (n, rest)) = some (negate n, rest)
signed false (some (n, rest)) = some (pos n, rest)

unfoldable pub read_signed : Bytes → Option (ℤ × Bytes)
unfolding read_number
read_signed [] = none
read_signed (c ∷ cs) =
    if c == b'-'
    then signed true (read_number cs)
    else if c == b'+'
    then signed false (read_number cs)
    else signed false (read_number (c ∷ cs))

-- `%d` of `sscanf`: spaces, a sign, digits. The integer is exact.
unfoldable pub scan_int : Bytes → Option (ℤ × Bytes)
unfolding read_signed skip_spaces
scan_int s = read_signed (skip_spaces s)

-- The number of a text, where it is an `int`.
unfoldable pub as_int : Option (ℤ × Bytes) → Option ℤ
as_int none = none
as_int (some (n, rest)) =
    if leb_ℤ n (pos (2 ^ 31 - 1)) && leb_ℤ (negsuc (2 ^ 31 - 1)) n then some n else none

-- `std::stoi`; none where it throws.
unfoldable pub stoi : Bytes → Option ℤ
unfolding scan_int as_int
stoi text = as_int (scan_int text)

-- The hexadecimal digits in front, into an accumulator, and how many there are.
unfoldable pub read_hex : ℕ → ℕ → Bytes → ℕ × ℕ
unfolding hex_value
read_hex n k [] = (n, k)
read_hex n k (c ∷ cs) = elim (hex_value c) [
  | none ↦ (n, k)
  | some d ↦ read_hex (n * 16 + d) (suc k) cs
]

-- An optional `0x` in front of a hexadecimal digit is passed over.
unfoldable pub skip_prefix : Bytes → Bytes
unfolding hex_value
skip_prefix (z ∷ x ∷ d ∷ cs) =
    if z == b'0' && (x == b'x' || x == b'X')
    then (elim (hex_value d) [ none ↦ z ∷ x ∷ d ∷ cs | some _ ↦ d ∷ cs ])
    else z ∷ x ∷ d ∷ cs
skip_prefix s = s

-- None where `stoul` throws: no digits, or a value of more than 64 bits.
unfoldable pub checked : ℕ × ℕ → Option ℕ
checked (n, k) = if k == 0 then none else if ltb n (2 ^ 64) then some n else none

negated : Option ℕ → Option ℕ
negated none = none
negated (some n) = some ((2 ^ 64 - n) % 2 ^ 64)

unfoldable pub stoul_signed : Bytes → Option ℕ
unfolding checked negated read_hex skip_prefix
stoul_signed [] = none
stoul_signed (c ∷ cs) =
    if c == b'-'
    then negated (checked (read_hex 0 0 (skip_prefix cs)))
    else if c == b'+'
    then checked (read_hex 0 0 (skip_prefix cs))
    else checked (read_hex 0 0 (skip_prefix (c ∷ cs)))

-- `std::stoul(s, nullptr, 16)`
unfoldable pub stoul_hex : Bytes → Option ℕ
unfolding stoul_signed skip_spaces
stoul_hex s = stoul_signed (skip_spaces s)

-- `%X` of one digit
unfoldable pub hex_digit : ℕ → ℕ
hex_digit d = if ltb d 10 then b'0' + d else 55 + d

-- The last `k` hexadecimal digits of `n`, in front of `rest`.
unfoldable pub hex_digits : ℕ → ℕ → Bytes → Bytes
unfolding hex_digit
hex_digits zero n rest = rest
hex_digits (suc k) n rest = hex_digits k (n / 16) (hex_digit (n % 16) ∷ rest)

-- The decimal digits of `n` in front of `rest`; the fuel bounds their number.
unfoldable pub dec_digits : ℕ → ℕ → Bytes → Bytes
dec_digits zero n rest = rest
dec_digits (suc fuel) n rest =
    let shown = (b'0' + n % 10) ∷ rest in
    let more = dec_digits fuel (n / 10) shown in if ltb n 10 then shown else more

-- `%u`, and `<<` of an unsigned number
unfoldable pub decimal : ℕ → Bytes
unfolding dec_digits
decimal n = dec_digits (suc n) n []

-- `<<` of an `int`, and `std::to_string`
unfoldable pub decimal_ℤ : ℤ → Bytes
unfolding decimal
decimal_ℤ (pos n) = decimal n
decimal_ℤ (negsuc n) = b'-' ∷ decimal (suc n)

decimal_shown : decimal 1070 ≡ codes "1070"
unfolding decimal
decimal_shown = refl

hex_shown : hex_digits 8 0xc0a8010a [] ≡ codes "C0A8010A"
unfolding hex_digits
hex_shown = refl

hex_read : stoul_hex (codes "0x0A01a8C0zz") ≡ some 0x0a01a8c0
unfolding stoul_hex
hex_read = refl
