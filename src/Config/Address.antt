-- ===== src/Config/Address.antt =====
-- config.cpp `extract_ip_hex_from_rtsp` and utils.hpp `hexToIp`: the two forms of a camera's address.
use Prim.Native.Nat.{bit_or}
use ivckolpak.Prelude.{
  ℕ, ◌+◌, ◌-◌, ◌*◌, ◌/◌, ◌%◌, ◌^◌, ◌≡◌, refl, [], ◌∷◌, ◌++◌, Option, none, some, ltb, ◌==◌,
  if◌then◌else◌, length,
}
use ivckolpak.Prelude.Int.{ℤ, pos, negsuc}
use ivckolpak.Prelude.Bytes.{Bytes, codes}
use ivckolpak.Prelude.Text.{find, find_text, substr, scan_int, stoul_hex, hex_digits, decimal}

abbrev pub u32_mod : ℕ
u32_mod = 2 ^ 32

-- The bits of an integer as a `uint32_t`.
abbrev pub word32 : ℤ → ℕ
word32 (pos n) = n % u32_mod
word32 (negsuc n) = u32_mod - 1 - n % u32_mod

-- `v << k` on 32 bits
abbrev pub shl32 : ℕ → ℕ → ℕ
shl32 v k = v * 2 ^ k % u32_mod

-- `"0x" << hex << uppercase << setw(8) << setfill('0') << v`
unfoldable pub hex_address : ℕ → Bytes
unfolding hex_digits
hex_address v = codes "0x" ++ hex_digits 8 v []

-- `snprintf` with "%u.%u.%u.%u" of the four bytes
unfoldable pub dotted : ℕ → Bytes
unfolding decimal
dotted v =
    decimal (v / 2 ^ 24 % 256)
    ++ (b'.'
        ∷ (decimal (v / 2 ^ 16 % 256)
            ++ (b'.' ∷ (decimal (v / 2 ^ 8 % 256) ++ (b'.' ∷ decimal (v % 256))))))

-- A `.` and an integer.
scan_dot_int : Bytes → Option (ℤ × Bytes)
unfolding scan_int
scan_dot_int [] = none
scan_dot_int (c ∷ cs) = if c == b'.' then scan_int cs else none

infixl 5 ◌>>=◌
abbrev ◌>>=◌ {ℓ κ} : {A : Type ℓ} {B : Type κ} → Option A → (A → Option B) → Option B
none >>= f = none
some a >>= f = f a

-- `sscanf(h, "%d.%d.%d.%d", ...)` as the address it makes; none where fewer than 4 are read.
unfoldable pub scan_dotted : Bytes → Option ℕ
unfolding scan_dot_int
scan_dotted h = do
  (a, after_a) ← scan_int h
  (b, after_b) ← scan_dot_int after_a
  (c, after_c) ← scan_dot_int after_b
  (d, after_d) ← scan_dot_int after_c
  some (
      bit_or (bit_or (bit_or (shl32 (word32 a) 24) (shl32 (word32 b) 16)) (shl32 (word32 c) 8))
        (word32 d))

-- The position `e` of the end of the host.
host_end : Bytes → ℕ → ℕ
unfolding find
host_end url s = elim (find b'/' url s) [
  | some e ↦ e
  | none ↦ elim (find b':' url s) [ some e ↦ e | none ↦ length url ]
]

-- The host is cut at its port.
cut_port : Bytes → Bytes
unfolding find substr
cut_port h = elim (find b':' h 0) [ none ↦ h | some pp ↦ substr h 0 pp ]

-- The host of a URL whose scheme ends at `s`.
host_at : Bytes → ℕ → Bytes
unfolding host_end cut_port
host_at url s = cut_port (substr url s (host_end url s - s))

-- The user and the password end at `@`.
after_credentials : Bytes → ℕ → ℕ
unfolding find
after_credentials url s = elim (find b'@' url s) [ none ↦ s | some a ↦ a + 1 ]

abbrev or_zero : Option ℕ → ℕ
or_zero none = 0
or_zero (some v) = v

unfoldable pub extract_ip_hex_from_rtsp : Bytes → Bytes
unfolding find_text host_at after_credentials scan_dotted hex_address
extract_ip_hex_from_rtsp url = elim (find_text (codes "://") url 0) [
  | none ↦ codes "0x00000000"
  | some p ↦ hex_address (or_zero (scan_dotted (host_at url (after_credentials url (p + 3)))))
]

-- The value of `stoul` is cut to 32 bits; where it throws, or the text is short, the address is zero.
unfoldable pub hex_to_ip : Bytes → Bytes
unfolding dotted stoul_hex substr
hex_to_ip hex =
    if ltb (length hex) 10 then codes "0.0.0.0" else elim (stoul_hex (substr hex 2 (length hex))) [
      | none ↦ codes "0.0.0.0"
      | some v ↦ dotted (v % u32_mod)
    ]

extracted :
    extract_ip_hex_from_rtsp (codes "rtsp://admin:pw@192.168.1.10:554/ch0") ≡ codes "0xC0A8010A"
unfolding extract_ip_hex_from_rtsp
extracted = refl

converted : hex_to_ip (codes "0xC0A8010A") ≡ codes "192.168.1.10"
unfolding hex_to_ip
converted = refl
