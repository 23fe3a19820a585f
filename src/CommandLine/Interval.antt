-- ===== src/CommandLine/Interval.antt =====
-- main.cpp: the interval of the statistics after the arguments are read.
use ivckolpak.Prelude.{
  ◌≡◌, refl, Bool, true, false, ◌||◌, not, List, [], ◌∷◌, Option, none, some, arith, drop, ◌⊎◌,
}
use ivckolpak.Prelude.Int.{ℤ, negsuc, is_pos, eqb_ℤ}
use ivckolpak.Prelude.Bytes.{Bytes}
use ivckolpak.Prelude.Text.{stoi}
use ivckolpak.CommandLine.{
  Cli, Outcome, run_with, help, help_full, not_positive, invalid_number, unknown_argument, Turn,
  return, after_this, after_next, with_interval, read_stats, read_path, read_argument, follow,
  read_arguments, no_arguments, value,
}

abbrev pub runs : Outcome → Bool
runs (run_with c) = true
runs help = false
runs help_full = false
runs not_positive = false
runs invalid_number = false
runs (unknown_argument arg) = false

-- The old interval, or a positive one.
abbrev keeps : Cli → Cli → Bool
keeps c d = eqb_ℤ d.stats_every c.stats_every || is_pos d.stats_every

abbrev turn_keeps : Cli → Turn → Bool
turn_keeps c (return o) = not (runs o)
turn_keeps c (after_this d) = keeps c d
turn_keeps c (after_next d) = keeps c d

interval_this : (c : Cli) (n : Option ℤ) → turn_keeps c (with_interval after_this c n) ≡ true
unfolding with_interval
interval_this c none = refl
interval_this c (some n) = ground arith

interval_next : (c : Cli) (n : Option ℤ) → turn_keeps c (with_interval after_next c n) ≡ true
unfolding with_interval
interval_next c none = refl
interval_next c (some n) = ground arith

read_stats-keeps :
    (arg : Bytes) (next : Option Bytes) (c : Cli) → turn_keeps c (read_stats arg next c) ≡ true
unfolding read_stats
read_stats-keeps arg next c =
    ground (arith, interval_next c (stoi (value next)), interval_this c (stoi (drop 14 arg)))

read_path-keeps :
    (arg : Bytes) (next : Option Bytes) (c : Cli) → turn_keeps c (read_path arg next c) ≡ true
unfolding read_path
read_path-keeps arg next c = ground (arith, read_stats-keeps arg next c)

read_argument-keeps :
    (arg : Bytes) (next : Option Bytes) (c : Cli) → turn_keeps c (read_argument arg next c) ≡ true
unfolding read_argument
read_argument-keeps arg next c = ground (arith, read_path-keeps arg next c)

keeps_trans : (c d e : Cli) → keeps c d ≡ true → keeps d e ≡ true → keeps c e ≡ true
keeps_trans c d e h k = ground arith

follow-keeps :
    (c e : Cli) (t : Turn) (this next : Cli → Outcome)
    → turn_keeps c t ≡ true
    → ((d : Cli) → this d ≡ run_with e → keeps d e ≡ true)
    → ((d : Cli) → next d ≡ run_with e → keeps d e ≡ true)
    → follow t this next ≡ run_with e
    → keeps c e ≡ true
follow-keeps c e (return o) this next k f g h = absurd cc
follow-keeps c e (after_this d) this next k f g h = keeps_trans c d e k (f d h)
follow-keeps c e (after_next d) this next k f g h = keeps_trans c d e k (g d h)

run_with-keeps : (c d : Cli) → run_with c ≡ run_with d → keeps c d ≡ true
run_with-keeps c d h = ground arith

read_arguments-keeps :
    (args : List Bytes) (c d : Cli) → read_arguments args c ≡ run_with d → keeps c d ≡ true
unfolding read_arguments
read_arguments-keeps [] c d h = run_with-keeps c d h
read_arguments-keeps (arg ∷ []) c d h =
    follow-keeps c d (read_argument arg none c) run_with run_with (read_argument-keeps arg none c)
      (λ e. run_with-keeps e d) (λ e. run_with-keeps e d) h
read_arguments-keeps (arg ∷ next ∷ rest) c d h =
    follow-keeps c d (read_argument arg (some next) c) (read_arguments (next ∷ rest))
      (read_arguments rest) (read_argument-keeps arg (some next) c)
      (λ e. read_arguments-keeps (next ∷ rest) e d) (λ e. read_arguments-keeps rest e d) h

-- Whatever the arguments are, a program that runs has no interval from them (the initial -1), or a
-- positive one; zero and negative intervals never get past the arguments.
pub interval_positive :
    (args : List Bytes) (d : Cli)
    → read_arguments args no_arguments ≡ run_with d
    → (d.stats_every ≡ negsuc 0) ⊎ (is_pos d.stats_every ≡ true)
interval_positive args d h = ground (arith, read_arguments-keeps args no_arguments d h)
