-- ===== src/Config/Convert.antt =====
-- config.cpp and utils.hpp: an address in hexadecimal, and read back.
use ivckolpak.Prelude.{
  ℕ, zero, suc, ◌+◌, ◌*◌, ◌/◌, ◌%◌, ◌^◌, ◌<◌, ◌≡◌, refl, sym, ◌∙◌, ap, false, [], ◌∷◌, Option, none,
  some, arith, ◌==◌, ◌||◌, Bool-cases, inl, inr,
}
use native.Mathlib.Nat.{pow-suc, pow-zero}
use mathlib.Core.Path.{subst}
use ivckolpak.Prelude.Bytes.{Bytes, codes}
use ivckolpak.Prelude.Text.{
  hex_value, hex_digit, hex_digits, read_hex, skip_prefix, skip_spaces, stoul_hex, stoul_signed,
  checked, is_space, substr,
}
use ivckolpak.Config.Address.{u32_mod, hex_address, dotted, hex_to_ip}

hex_value-hex_digit : (d : ℕ) → d < 16 → hex_value (hex_digit d) ≡ some d
unfolding hex_value hex_digit
hex_value-hex_digit d h = ground (arith, h)

read_digit :
    (n k d : ℕ) (rest : Bytes)
    → d < 16
    → read_hex n k (hex_digit d ∷ rest) ≡ read_hex (n * 16 + d) (suc k) rest
unfolding read_hex
read_digit n k d rest h =
    ap (λ o. elim o as (λ x. ℕ × ℕ) [ none ↦ (n, k) | some e ↦ read_hex (n * 16 + e) (suc k) rest ])
      (hex_value-hex_digit d h)

-- The number that the digits in front add up to.
added : (n p v : ℕ) → (n * p + v / 16) * 16 + v % 16 ≡ n * (p * 16) + v
added n p v = omega arith

fits : (p v : ℕ) → v < p * 16 → v / 16 < p
fits p v h = omega (arith, h)

read_digits_back :
    (j n k v : ℕ) (rest : Bytes)
    → v < 16 ^ j
    → read_hex n k (hex_digits j v rest) ≡ read_hex (n * 16 ^ j + v) (k + j) rest
unfolding hex_digits
read_digits_back zero n k v rest h =
    ap (λ m. read_hex m k rest) (omega (arith, pow-zero 16, h))
    ∙ ap (λ m. read_hex (n * 16 ^ zero + v) m rest) (omega arith)
read_digits_back (suc j) n k v rest h =
    read_digits_back j n k (v / 16) (hex_digit (v % 16) ∷ rest)
      (fits (16 ^ j) v (subst (λ p. v < p) (pow-suc 16 j) h))
    ∙ read_digit (n * 16 ^ j + v / 16) (k + j) (v % 16) rest (omega arith)
    ∙ ap (λ m. read_hex m (suc (k + j)) rest)
        (added n (16 ^ j) v ∙ ap (λ p. n * p + v) (sym (pow-suc 16 j)))
    ∙ ap (λ m. read_hex (n * 16 ^ suc j + v) m rest) (omega arith)

-- A text that begins neither with a blank nor a sign nor `0x`.
no_prefix :
    (a b f : ℕ) (cs : Bytes)
    → (b == b'x' || b == b'X') ≡ false
    → skip_prefix (a ∷ b ∷ f ∷ cs) ≡ a ∷ b ∷ f ∷ cs
unfolding skip_prefix
no_prefix a b f cs x = elim (Bool-cases (a == b'0')) [
  | inl z ↦ ground (arith, x, z)
  | inr z ↦ ground (arith, x, z)
]

no_blank : (a : ℕ) (cs : Bytes) → is_space a ≡ false → skip_spaces (a ∷ cs) ≡ a ∷ cs
unfolding skip_spaces
no_blank a cs h = ground (arith, h)

no_sign :
    (a : ℕ) (cs : Bytes)
    → (a == b'-') ≡ false
    → (a == b'+') ≡ false
    → stoul_signed (a ∷ cs) ≡ checked (read_hex 0 0 (skip_prefix (a ∷ cs)))
unfolding stoul_signed
no_sign a cs m p = simp (m, p)

digit_space : (d : ℕ) → d < 16 → is_space (hex_digit d) ≡ false
unfolding hex_digit
digit_space d h = ground (arith, h)

digit_sign : (d : ℕ) → d < 16 → ((hex_digit d == b'-') ≡ false) × ((hex_digit d == b'+') ≡ false)
unfolding hex_digit
digit_sign d h = (ground (arith, h), ground (arith, h))

digit_x : (d : ℕ) → d < 16 → (hex_digit d == b'x' || hex_digit d == b'X') ≡ false
unfolding hex_digit
digit_x d h = ground (arith, h)

stoul_digits :
    (d e f : ℕ) (cs : Bytes)
    → d < 16
    → e < 16
    → stoul_hex (hex_digit d ∷ hex_digit e ∷ f ∷ cs)
      ≡ checked (read_hex 0 0 (hex_digit d ∷ hex_digit e ∷ f ∷ cs))
unfolding stoul_hex
stoul_digits d e f cs h k =
    ap stoul_signed (no_blank (hex_digit d) (hex_digit e ∷ f ∷ cs) (digit_space d h))
    ∙ no_sign (hex_digit d) (hex_digit e ∷ f ∷ cs) (digit_sign d h).0 (digit_sign d h).1
    ∙ ap (λ x. checked (read_hex 0 0 x)) (no_prefix (hex_digit d) (hex_digit e) f cs (digit_x e k))

below_sixteen : (v : ℕ) → v % 16 < 16
below_sixteen v = omega arith

stoul_word : (v : ℕ) → stoul_hex (hex_digits 8 v []) ≡ checked (read_hex 0 0 (hex_digits 8 v []))
unfolding hex_digits
stoul_word v = stoul_digits _ _ _ _ (below_sixteen _) (below_sixteen _)

checked_word : (v : ℕ) → v < 2 ^ 32 → checked (read_hex (0 * 16 ^ 8 + v) (0 + 8) []) ≡ some v
unfolding checked read_hex
checked_word v h = ground (arith, h)

-- The eight digits of a 32-bit word are read back as the word.
stoul_hex-hex_digits : (v : ℕ) → v < 2 ^ 32 → stoul_hex (hex_digits 8 v []) ≡ some v
stoul_hex-hex_digits v h =
    stoul_word v ∙ ap checked (read_digits_back 8 0 0 v [] h) ∙ checked_word v h

abbrev shown_as : Option ℕ → Bytes
shown_as none = codes "0.0.0.0"
shown_as (some v) = dotted (v % u32_mod)

hex_to_ip_digits : (v : ℕ) → hex_to_ip (hex_address v) ≡ shown_as (stoul_hex (hex_digits 8 v []))
unfolding hex_to_ip hex_address hex_digits substr
hex_to_ip_digits v = refl

-- `hexToIp` turns the hexadecimal address of every 32-bit word, as `extract_ip_hex_from_rtsp` and the server
-- write it, into the dotted address of the same word.
pub hex_to_ip-hex_address : (v : ℕ) → v < 2 ^ 32 → hex_to_ip (hex_address v) ≡ dotted v
hex_to_ip-hex_address v h =
    hex_to_ip_digits v ∙ ap shown_as (stoul_hex-hex_digits v h) ∙ ap dotted (omega (arith, h))
