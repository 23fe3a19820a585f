-- ===== src/Alarm/Frame.antt =====
-- alarm_server.cpp `findJsonEnd`: where the first JSON object of a byte stream ends.
pub mod Objects
use ivckolpak.Prelude.{
  ℕ, suc, ◌+◌, ◌≡◌, refl, Bool, true, false, not, ◌&&◌, [], ◌∷◌, ◌==◌, if◌then◌else◌,
}
use ivckolpak.Prelude.Bytes.{Bytes, codes}
use ivckolpak.Prelude.Int.{ℤ, pos, ◌+ℤ◌, ◌-ℤ◌, eqb_ℤ}

-- The local variables; `at_end` is set where the loop returns.
pub record Scan : Type 0 where
  pub depth : ℤ
  pub in_str : Bool
  pub esc : Bool
  pub at_end : Bool

abbrev pub scan_start : Scan
scan_start = record { depth = pos 0; in_str = false; esc = false; at_end = false }

-- The depth after a brace outside a string.
scan_brace : ℕ → Scan → Scan
unfolding ◌+ℤ◌ ◌-ℤ◌
scan_brace c s =
    if c == b'{'
    then record s { depth = s.depth +ℤ pos 1 }
    else if c == b'}'
    then record s { depth = s.depth -ℤ pos 1; at_end = eqb_ℤ (s.depth -ℤ pos 1) (pos 0) }
    else s

-- One round of the loop, at the byte `c`.
unfoldable pub scan_next : ℕ → Scan → Scan
unfolding scan_brace
scan_next c s =
    if s.esc
    then record s { esc = false }
    else if c == b'\\' && s.in_str
    then record s { esc = true }
    else if c == b'"'
    then record s { in_str = not s.in_str }
    else if s.in_str
    then s
    else scan_brace c s

-- The loop from position `i` on.
unfoldable pub scan_from : ℕ → Scan → Bytes → ℕ
unfolding scan_next
scan_from i s [] = 0
scan_from i s (c ∷ cs) =
    let t = scan_next c s in let rest = scan_from (suc i) t cs in if t.at_end then suc i else rest

unfoldable pub find_json_end : Bytes → ℕ
unfolding scan_from
find_json_end text = scan_from 0 scan_start text

found : find_json_end (codes "{\"a\":\"}\\\"{\",\"b\":{}}{\"c\"") ≡ 19
unfolding find_json_end
found = refl
