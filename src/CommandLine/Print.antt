-- ===== src/CommandLine/Print.antt =====
-- main.cpp: arguments as they are written, and the reading of them.
use ivckolpak.Prelude.{
  ℕ, ◌^◌, ◌<◌, ◌≡◌, refl, sym, ◌∙◌, ap, Bool, true, false, List, [], ◌∷◌, ◌++◌, Option, none, some,
  arith, All, append-nil,
}
use ivckolpak.Prelude.Int.{pos}
use ivckolpak.Prelude.Bytes.{Bytes, codes, bytes_eq}
use ivckolpak.Prelude.Text.{starts_with, stoi, decimal}
use ivckolpak.Prelude.Decimal.{digit_first, stoi-decimal}
use ivckolpak.CommandLine.{
  Cli, run_with, Turn, after_this, after_next, with_interval, read_argument, read_path, read_stats,
  follow, read_arguments,
}

-- An option in one of its spellings; the flag chooses the short one.
pub data Setting : Type 0 where
  silently : (short : Bool) → Setting
  config_spaced config_joined : (short : Bool) → Bytes → Setting
  stats_spaced stats_joined : ℕ → Setting

unfoldable pub written : Setting → List Bytes
unfolding decimal
written (silently true) = codes "-s" ∷ []
written (silently false) = codes "--silent" ∷ []
written (config_spaced true p) = codes "-c" ∷ p ∷ []
written (config_spaced false p) = codes "--config" ∷ p ∷ []
written (config_joined true p) = (codes "-c=" ++ p) ∷ []
written (config_joined false p) = (codes "--config=" ++ p) ∷ []
written (stats_spaced n) = codes "--stats-every" ∷ decimal n ∷ []
written (stats_joined n) = (codes "--stats-every=" ++ decimal n) ∷ []

unfoldable pub write_all : List Setting → List Bytes
unfolding written
write_all [] = []
write_all (s ∷ ss) = written s ++ write_all ss

unfoldable pub apply : Setting → Cli → Cli
apply (silently short) c = record c { silent = true }
apply (config_spaced short p) c = record c { config_path = p }
apply (config_joined short p) c = record c { config_path = p }
apply (stats_spaced n) c = record c { stats_every = pos n }
apply (stats_joined n) c = record c { stats_every = pos n }

-- A later option takes the place of an earlier one.
unfoldable pub apply_all : List Setting → Cli → Cli
unfolding apply
apply_all [] c = c
apply_all (s ∷ ss) c = apply_all ss (apply s c)

-- An interval is positive and an `int`.
abbrev pub IsInterval : Setting → Type 0
IsInterval (silently short) = Unit
IsInterval (config_spaced short p) = Unit
IsInterval (config_joined short p) = Unit
IsInterval (stats_spaced n) = (0 < n) × (n < 2 ^ 31)
IsInterval (stats_joined n) = (0 < n) × (n < 2 ^ 31)

with_interval-decimal :
    (turn : Cli → Turn) (c : Cli) (n : ℕ) (t : Bytes)
    → 0 < n
    → n < 2 ^ 31
    → digit_first t ≡ false
    → with_interval turn c (stoi (decimal n ++ t)) ≡ turn (record c { stats_every = pos n })
unfolding with_interval
with_interval-decimal turn c n t h k d =
    ap (with_interval turn c) (stoi-decimal n t k d) ∙ ground arith

-- An argument that does not depend on the next one.
follow_this :
    (arg : Bytes) (rest : List Bytes) (c d : Cli)
    → ((next : Option Bytes) → read_argument arg next c ≡ after_this d)
    → read_arguments (arg ∷ rest) c ≡ read_arguments rest d
unfolding read_arguments
follow_this arg [] c d h = ap (λ t. follow t run_with run_with) (h none)
follow_this arg (next ∷ rest) c d h =
    ap (λ t. follow t (read_arguments (next ∷ rest)) (read_arguments rest)) (h (some next))

follow_next :
    (arg next : Bytes) (rest : List Bytes) (c d : Cli)
    → read_argument arg (some next) c ≡ after_next d
    → read_arguments (arg ∷ next ∷ rest) c ≡ read_arguments rest d
unfolding read_arguments
follow_next arg next rest c d h =
    ap (λ t. follow t (read_arguments (next ∷ rest)) (read_arguments rest)) h

stats_argument :
    (c : Cli) (n : ℕ) (t : Bytes) (next : Option Bytes)
    → 0 < n
    → n < 2 ^ 31
    → digit_first t ≡ false
    → read_argument (codes "--stats-every=" ++ (decimal n ++ t)) next c
      ≡ after_this (record c { stats_every = pos n })
unfolding read_argument read_path read_stats bytes_eq starts_with
stats_argument c n t none h k d = with_interval-decimal after_this c n t h k d
stats_argument c n t (some next) h k d = with_interval-decimal after_this c n t h k d

read-written :
    (s : Setting) (rest : List Bytes) (c : Cli)
    → IsInterval s
    → read_arguments (written s ++ rest) c ≡ read_arguments rest (apply s c)
unfolding written apply read_argument read_path read_stats bytes_eq starts_with
read-written (silently true) rest c h = follow_this _ rest c _ (λ next. refl)
read-written (silently false) rest c h = follow_this _ rest c _ (λ next. refl)
read-written (config_spaced true p) rest c h = follow_next _ p rest c _ refl
read-written (config_spaced false p) rest c h = follow_next _ p rest c _ refl
read-written (config_joined true p) rest c h = follow_this _ rest c _ (λ next. refl)
read-written (config_joined false p) rest c h = follow_this _ rest c _ (λ next. refl)
read-written (stats_spaced n) rest c h = follow_next _ _ rest c _ (
    ap (λ v. with_interval after_next c (stoi v)) (sym (append-nil (decimal n)))
    ∙ with_interval-decimal after_next c n [] h.0 h.1 refl)
read-written (stats_joined n) rest c h =
    ap (λ v. read_arguments ((codes "--stats-every=" ++ v) ∷ rest) c) (sym (append-nil (decimal n)))
    ∙ follow_this _ rest c _ (λ next. stats_argument c n [] next h.0 h.1 refl)

-- Arguments that are written from options in any of their spellings are read back: the program runs with
-- these options applied one after the other, where each interval is positive and below 2 ^ 31.
pub read_arguments-write_all :
    (ss : List Setting) (c : Cli)
    → All IsInterval ss
    → read_arguments (write_all ss) c ≡ run_with (apply_all ss c)
unfolding write_all apply_all read_arguments
read_arguments-write_all [] c h = refl
read_arguments-write_all (s ∷ ss) c h =
    read-written s (write_all ss) c h.0 ∙ read_arguments-write_all ss (apply s c) h.1

-- Text after the digits of `--stats-every=` is passed over: where it does not begin with a digit, the
-- argument is read as the number alone, however the other arguments are.
pub stats_every_tail :
    (n : ℕ) (t : Bytes) (rest : List Bytes) (c : Cli)
    → 0 < n
    → n < 2 ^ 31
    → digit_first t ≡ false
    → read_arguments ((codes "--stats-every=" ++ (decimal n ++ t)) ∷ rest) c
      ≡ read_arguments rest (record c { stats_every = pos n })
stats_every_tail n t rest c h k d = follow_this _ rest c _ (λ next. stats_argument c n t next h k d)
