-- ===== src/Alarm/Server/Append.antt =====
-- alarm_server.cpp: `find('{')` and `findJsonEnd` on a buffer with more bytes behind it.
use ivckolpak.Prelude.{
  ℕ, zero, suc, ◌+◌, ◌≤◌, ◌≡◌, refl, ap, List, [], ◌∷◌, ◌++◌, none, some, arith, ◌==◌, length, take,
  drop, Bool-cases, inl, inr,
}
use ivckolpak.Prelude.Bytes.{Bytes}
use ivckolpak.Alarm.Frame.{Scan, scan_start, scan_from, scan_next, find_json_end}
use ivckolpak.Alarm.Server.{from_brace}

pub empty_brace : from_brace [] ≡ none
unfolding from_brace
empty_brace = refl

pub from_brace-append_some :
    (b c more : Bytes) → from_brace b ≡ some c → from_brace (b ++ more) ≡ some (c ++ more)
unfolding from_brace
from_brace-append_some [] c more h = ground arith
from_brace-append_some (x ∷ b) c more h = elim (Bool-cases (x == b'{')) [
  | inl e ↦ ground (arith, h, e)
  | inr e ↦ ground (arith, h, e, from_brace-append_some b c more)
]

pub from_brace-append_none :
    (b more : Bytes) → from_brace b ≡ none → from_brace (b ++ more) ≡ from_brace more
unfolding from_brace
from_brace-append_none [] more h = refl
from_brace-append_none (x ∷ b) more h = elim (Bool-cases (x == b'{')) [
  | inl e ↦ ground (arith, h, e)
  | inr e ↦ ground (arith, h, e, from_brace-append_none b more)
]

pub from_brace_idem : (b c : Bytes) → from_brace b ≡ some c → from_brace c ≡ some c
unfolding from_brace
from_brace_idem [] c h = ground arith
from_brace_idem (x ∷ b) c h = elim (Bool-cases (x == b'{')) [
  | inl e ↦ ground (arith, h, e)
  | inr e ↦ ground (arith, h, e, from_brace_idem b c)
]

pub scan_from-append :
    (b more : Bytes) (i n : ℕ) (s : Scan)
    → scan_from i s b ≡ suc n
    → scan_from i s (b ++ more) ≡ suc n
unfolding scan_from
scan_from-append [] more i n s h = ground arith
scan_from-append (x ∷ b) more i n s h =
    ground (arith, h, scan_from-append b more (suc i) n (scan_next x s))

pub scan_from_bound :
    (b : Bytes) (i n : ℕ) (s : Scan) → scan_from i s b ≡ suc n → suc n ≤ i + length b
unfolding scan_from
scan_from_bound [] i n s h = ground arith
scan_from_bound (x ∷ b) i n s h = ground (arith, h, scan_from_bound b (suc i) n (scan_next x s))

pub find_json_end-append :
    (b more : Bytes) (n : ℕ) → find_json_end b ≡ suc n → find_json_end (b ++ more) ≡ suc n
unfolding find_json_end
find_json_end-append b more n h = scan_from-append b more 0 n scan_start h

pub find_json_end_bound : (b : Bytes) (n : ℕ) → find_json_end b ≡ suc n → suc n ≤ length b
unfolding find_json_end
find_json_end_bound b n h = omega (arith, scan_from_bound b 0 n scan_start h)

module _ {ℓ} {A : Type ℓ} where
  pub take-append : (n : ℕ) (xs ys : List A) → n ≤ length xs → take n (xs ++ ys) ≡ take n xs
  take-append zero xs ys h = refl
  take-append (suc n) [] ys h = ground arith
  take-append (suc n) (x ∷ xs) ys h = ap (λ r. x ∷ r) (take-append n xs ys (omega arith))

  pub drop-append : (n : ℕ) (xs ys : List A) → n ≤ length xs → drop n (xs ++ ys) ≡ drop n xs ++ ys
  drop-append zero xs ys h = refl
  drop-append (suc n) [] ys h = ground arith
  drop-append (suc n) (x ∷ xs) ys h = drop-append n xs ys (omega arith)
