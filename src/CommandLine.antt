-- ===== src/CommandLine.antt =====
-- main.cpp: the arguments of the program.
pub mod Print
pub mod Interval
mod Tests
use ivckolpak.Prelude.{
  ℕ, Bool, true, false, ◌||◌, ◌&&◌, List, [], ◌∷◌, Option, none, some, drop, if◌then◌else◌,
}
use ivckolpak.Prelude.Int.{ℤ, negsuc, is_pos}
use ivckolpak.Prelude.Bytes.{Bytes, codes, bytes_eq}
use ivckolpak.Prelude.Text.{starts_with, stoi}

-- `config_path`, `cli_silent` and `cli_stats_every`.
pub record Cli : Type 0 where
  pub config_path : Bytes
  pub silent : Bool
  pub stats_every : ℤ

abbrev pub no_arguments : Cli
no_arguments = record {
  config_path = codes "ivckolpak.ini";
  silent = false;
  stats_every = negsuc 0;
}

-- How the loop over the arguments ends. All but the first return from `main`.
pub data Outcome : Type 0 where
  run_with : Cli → Outcome
  help help_full not_positive invalid_number : Outcome
  unknown_argument : Bytes → Outcome

-- What one argument does: it returns, or the loop goes on after it or after the next one.
pub data Turn : Type 0 where
  return : Outcome → Turn
  after_this after_next : Cli → Turn

-- `--stats-every` with its number; the turn of the loop that follows is the caller's.
unfoldable pub with_interval : (Cli → Turn) → Cli → Option ℤ → Turn
with_interval turn c none = return invalid_number
with_interval turn c (some n) =
    if is_pos n then turn (record c { stats_every = n }) else return not_positive

-- Whether there is a next argument, `i + 1 < argc`, and the argument.
abbrev has_next : Option Bytes → Bool
has_next none = false
has_next (some next) = true

abbrev value : Option Bytes → Bytes
value none = []
value (some next) = next

-- The body of the loop, from the test for `--stats-every` on.
unfoldable pub read_stats : Bytes → Option Bytes → Cli → Turn
unfolding bytes_eq starts_with with_interval stoi
read_stats arg next c =
    if bytes_eq arg (codes "--stats-every") && has_next next
    then with_interval after_next c (stoi (value next))
    else if starts_with (codes "--stats-every=") arg
    then with_interval after_this c (stoi (drop 14 arg))
    else return (unknown_argument arg)

-- From the test for `-c` on.
unfoldable pub read_path : Bytes → Option Bytes → Cli → Turn
unfolding bytes_eq starts_with read_stats
read_path arg next c =
    if (bytes_eq arg (codes "-c") || bytes_eq arg (codes "--config")) && has_next next
    then after_next (record c { config_path = value next })
    else if starts_with (codes "--config=") arg
    then after_this (record c { config_path = drop 9 arg })
    else if starts_with (codes "-c=") arg
    then after_this (record c { config_path = drop 3 arg })
    else read_stats arg next c

-- The whole body.
unfoldable pub read_argument : Bytes → Option Bytes → Cli → Turn
unfolding bytes_eq read_path
read_argument arg next c =
    if bytes_eq arg (codes "-h") || bytes_eq arg (codes "--help")
    then return help
    else if bytes_eq arg (codes "--help-full")
    then return help_full
    else if bytes_eq arg (codes "-s") || bytes_eq arg (codes "--silent")
    then after_this (record c { silent = true })
    else read_path arg next c

abbrev pub follow : Turn → (Cli → Outcome) → (Cli → Outcome) → Outcome
follow (return o) this next = o
follow (after_this c) this next = this c
follow (after_next c) this next = next c

-- The loop, over the arguments that are left.
unfoldable pub read_arguments : List Bytes → Cli → Outcome
unfolding read_argument
read_arguments [] c = run_with c
read_arguments (arg ∷ []) c = follow (read_argument arg none c) run_with run_with
read_arguments (arg ∷ next ∷ rest) c =
    follow (read_argument arg (some next) c) (read_arguments (next ∷ rest)) (read_arguments rest)
