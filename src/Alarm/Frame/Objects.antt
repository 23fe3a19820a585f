-- ===== src/Alarm/Frame/Objects.antt =====
-- alarm_server.cpp `findJsonEnd`: texts of JSON objects, as far as braces and strings go.
use ivckolpak.Prelude.{
  ℕ, suc, ◌+◌, ◌≡◌, refl, sym, ◌∙◌, ap, Bool, true, false, ◌||◌, [], ◌∷◌, ◌++◌, arith, ◌==◌, length,
  if◌then◌else◌,
}
use ivckolpak.Prelude.Bytes.{Bytes}
use ivckolpak.Prelude.Int.{pos, ◌+ℤ◌, ◌-ℤ◌, eqb_ℤ}
use ivckolpak.Alarm.Frame.{Scan, scan_start, scan_next, scan_from, find_json_end}

abbrev needs_escape : ℕ → Bool
needs_escape c = c == b'"' || c == b'\\'

abbrev is_mark : ℕ → Bool
is_mark c = c == b'"' || (c == b'{' || c == b'}')

-- What stands between the quotes of a string.
pub data Chars : Type 0 where
  finish : Chars
  char : (c : ℕ) → needs_escape c ≡ false → Chars → Chars
  escaped : ℕ → Chars → Chars

-- What stands between the braces of an object.
pub data Body : Type 0 where
  finish : Body
  plain : (c : ℕ) → is_mark c ≡ false → Body → Body
  quoted : Chars → Body → Body
  nested : Body → Body → Body

-- The text, in front of `rest`.
show_chars : Chars → Bytes → Bytes
show_chars Chars.finish rest = rest
show_chars (char c h s) rest = c ∷ show_chars s rest
show_chars (escaped c s) rest = b'\\' ∷ c ∷ show_chars s rest

show : Body → Bytes → Bytes
unfolding show_chars
show Body.finish rest = rest
show (plain c h b) rest = c ∷ show b rest
show (quoted s b) rest = b'"' ∷ show_chars s (b'"' ∷ show b rest)
show (nested a b) rest = b'{' ∷ show a (b'}' ∷ show b rest)

unfoldable pub show_object : Body → Bytes → Bytes
unfolding show
show_object b rest = b'{' ∷ show b (b'}' ∷ rest)

chars_size : Chars → ℕ
chars_size Chars.finish = 0
chars_size (char c h s) = suc (chars_size s)
chars_size (escaped c s) = suc (suc (chars_size s))

size : Body → ℕ
unfolding chars_size
size Body.finish = 0
size (plain c h b) = suc (size b)
size (quoted s b) = suc (chars_size s + suc (size b))
size (nested a b) = suc (size a + suc (size b))

-- The scan outside and inside a string, at depth `n`.
abbrev outside : ℕ → Scan
outside n = record { depth = pos n; in_str = false; esc = false; at_end = false }

abbrev inside : ℕ → Scan
inside n = record { depth = pos n; in_str = true; esc = false; at_end = false }

next_plain : (c n : ℕ) → is_mark c ≡ false → scan_next c (outside n) ≡ outside n
unfolding scan_next
next_plain c n h = ground arith

next_char : (c n : ℕ) → needs_escape c ≡ false → scan_next c (inside n) ≡ inside n
unfolding scan_next
next_char c n h = ground arith

up : (n : ℕ) → pos n +ℤ pos 1 ≡ pos (suc n)
unfolding ◌+ℤ◌
up n = ground arith

down : (n : ℕ) → pos (suc n) -ℤ pos 1 ≡ pos n
unfolding ◌-ℤ◌
down n = ground arith

not_last : (n : ℕ) → eqb_ℤ (pos (suc n)) (pos 0) ≡ false
not_last n = ground arith

next_open : (n : ℕ) → scan_next b'{' (outside n) ≡ outside (suc n)
unfolding scan_next
next_open n = simp (up n)

next_close : (n : ℕ) → scan_next b'}' (outside (suc (suc n))) ≡ outside (suc n)
unfolding scan_next
next_close n = simp (down (suc n), not_last n)

scan_step :
    (i c : ℕ) (s t : Scan) (cs : Bytes)
    → scan_next c s ≡ t
    → t.at_end ≡ false
    → scan_from i s (c ∷ cs) ≡ scan_from (suc i) t cs
unfolding scan_from
scan_step i c s t cs e h =
    ap (λ u. if u.at_end then suc i else scan_from (suc i) u cs) e
    ∙ ap (λ b. if b then suc i else scan_from (suc i) t cs) h

shift : (i j : ℕ) (s : Scan) (cs : Bytes) → i ≡ j → scan_from i s cs ≡ scan_from j s cs
shift i j s cs e = ap (λ k. scan_from k s cs) e

scan_chars :
    (s : Chars) (i n : ℕ) (rest : Bytes)
    → scan_from i (inside n) (show_chars s rest) ≡ scan_from (i + chars_size s) (inside n) rest
unfolding show_chars chars_size scan_next
scan_chars Chars.finish i n rest = shift i (i + 0) (inside n) rest (omega arith)
scan_chars (char c h s) i n rest =
    scan_step i c (inside n) (inside n) (show_chars s rest) (next_char c n h) refl
    ∙ scan_chars s (suc i) n rest
    ∙ shift (suc i + chars_size s) (i + suc (chars_size s)) (inside n) rest (omega arith)
scan_chars (escaped c s) i n rest =
    scan_step i b'\\' (inside n) (record (inside n) { esc = true }) (c ∷ show_chars s rest) refl
      refl
    ∙ scan_step (suc i) c (record (inside n) { esc = true }) (inside n) (show_chars s rest) refl
        refl
    ∙ scan_chars s (suc (suc i)) n rest
    ∙ shift (suc (suc i) + chars_size s) (i + suc (suc (chars_size s))) (inside n) rest
        (omega arith)

scan_body :
    (b : Body) (i n : ℕ) (rest : Bytes)
    → scan_from i (outside (suc n)) (show b rest) ≡ scan_from (i + size b) (outside (suc n)) rest
unfolding show size scan_next
scan_body Body.finish i n rest = shift i (i + 0) (outside (suc n)) rest (omega arith)
scan_body (plain c h b) i n rest =
    scan_step i c (outside (suc n)) (outside (suc n)) (show b rest) (next_plain c (suc n) h) refl
    ∙ scan_body b (suc i) n rest
    ∙ shift (suc i + size b) (i + suc (size b)) (outside (suc n)) rest (omega arith)
scan_body (quoted s b) i n rest =
    let k = suc i + chars_size s in
    scan_step i b'"' (outside (suc n)) (inside (suc n)) (show_chars s (b'"' ∷ show b rest)) refl
      refl
    ∙ scan_chars s (suc i) (suc n) (b'"' ∷ show b rest)
    ∙ scan_step k b'"' (inside (suc n)) (outside (suc n)) (show b rest) refl refl
    ∙ scan_body b (suc k) n rest
    ∙ shift (suc k + size b) (i + suc (chars_size s + suc (size b))) (outside (suc n)) rest
        (omega arith)
scan_body (nested a b) i n rest =
    let k = suc i + size a in
    scan_step i b'{' (outside (suc n)) (outside (suc (suc n))) (show a (b'}' ∷ show b rest))
      (next_open (suc n)) refl
    ∙ scan_body a (suc i) (suc n) (b'}' ∷ show b rest)
    ∙ scan_step k b'}' (outside (suc (suc n))) (outside (suc n)) (show b rest) (next_close n) refl
    ∙ scan_body b (suc k) n rest
    ∙ shift (suc k + size b) (i + suc (size a + suc (size b))) (outside (suc n)) rest (omega arith)

one_more : (n : ℕ) → suc (1 + n) ≡ suc (suc n)
one_more n = omega arith

last_brace : (i : ℕ) (rest : Bytes) → scan_from i (outside 1) (b'}' ∷ rest) ≡ suc i
unfolding scan_from scan_next ◌-ℤ◌
last_brace i rest = refl

scan_object : (b : Body) (rest : Bytes) → find_json_end (show_object b rest) ≡ suc (suc (size b))
unfolding find_json_end show_object
scan_object b rest =
    scan_step 0 b'{' scan_start (outside 1) (show b (b'}' ∷ rest)) (next_open 0) refl
    ∙ scan_body b 1 0 (b'}' ∷ rest)
    ∙ last_brace (1 + size b) rest
    ∙ one_more (size b)

show_chars-append : (s : Chars) (xs ys : Bytes) → show_chars s (xs ++ ys) ≡ show_chars s xs ++ ys
unfolding show_chars
show_chars-append Chars.finish xs ys = refl
show_chars-append (char c h s) xs ys = ap (λ r. c ∷ r) (show_chars-append s xs ys)
show_chars-append (escaped c s) xs ys = ap (λ r. b'\\' ∷ c ∷ r) (show_chars-append s xs ys)

show-append : (b : Body) (xs ys : Bytes) → show b (xs ++ ys) ≡ show b xs ++ ys
unfolding show
show-append Body.finish xs ys = refl
show-append (plain c h b) xs ys = ap (λ r. c ∷ r) (show-append b xs ys)
show-append (quoted s b) xs ys =
    ap (λ r. b'"' ∷ show_chars s (b'"' ∷ r)) (show-append b xs ys)
    ∙ ap (λ r. b'"' ∷ r) (show_chars-append s (b'"' ∷ show b xs) ys)
show-append (nested a b) xs ys =
    ap (λ r. b'{' ∷ show a (b'}' ∷ r)) (show-append b xs ys)
    ∙ ap (λ r. b'{' ∷ r) (show-append a (b'}' ∷ show b xs) ys)

length-show_chars :
    (s : Chars) (rest : Bytes) → length (show_chars s rest) ≡ chars_size s + length rest
unfolding show_chars chars_size
length-show_chars Chars.finish rest = omega arith
length-show_chars (char c h s) rest = omega (arith, length-show_chars s rest)
length-show_chars (escaped c s) rest = omega (arith, length-show_chars s rest)

length-show : (b : Body) (rest : Bytes) → length (show b rest) ≡ size b + length rest
unfolding show size
length-show Body.finish rest = omega arith
length-show (plain c h b) rest = omega (arith, length-show b rest)
length-show (quoted s b) rest =
    omega (arith, length-show_chars s (b'"' ∷ show b rest), length-show b rest)
length-show (nested a b) rest =
    omega (arith, length-show a (b'}' ∷ show b rest), length-show b rest)

length-show_object : (b : Body) → length (show_object b []) ≡ suc (suc (size b))
unfolding show_object
length-show_object b = omega (arith, length-show b (b'}' ∷ []))

show_object-append : (b : Body) (rest : Bytes) → show_object b rest ≡ show_object b [] ++ rest
unfolding show_object
show_object-append b rest = ap (λ r. b'{' ∷ r) (show-append b (b'}' ∷ []) rest)

-- `findJsonEnd` finds the end of every object: of nested braces, braces and escaped quotes in strings, and
-- whatever follows the object.
pub find_json_end_lem :
    (b : Body) (rest : Bytes) → find_json_end (show_object b [] ++ rest) ≡ length (show_object b [])
find_json_end_lem b rest =
    ap find_json_end (sym (show_object-append b rest))
    ∙ scan_object b rest
    ∙ sym (length-show_object b)
