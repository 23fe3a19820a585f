-- ===== src/CommandLine/Tests.antt =====
-- Runs of the reading of arguments.
use ivckolpak.Prelude.{◌≡◌, refl, true, false, List, [], ◌∷◌, arith}
use ivckolpak.Prelude.Int.{pos}
use ivckolpak.Prelude.Bytes.{codes, bytes_eq}
use ivckolpak.CommandLine.{
  Cli, no_arguments, run_with, help, not_positive, invalid_number, unknown_argument, read_arguments,
}
use ivckolpak.CommandLine.Print.{
  Setting, silently, config_spaced, stats_spaced, write_all, apply_all, read_arguments-write_all,
}

abbrev settings : List Setting
settings = silently true ∷ config_spaced false (codes "a.ini") ∷ stats_spaced 10 ∷ []

settings_written :
    write_all settings
    ≡ codes "-s" ∷ codes "--config" ∷ codes "a.ini" ∷ codes "--stats-every" ∷ codes "10" ∷ []
unfolding write_all
settings_written = refl

abbrev result : Cli
result = record { config_path = codes "a.ini"; silent = true; stats_every = pos 10 }

read_arguments-write_all_example :
    read_arguments (write_all settings) no_arguments ≡ run_with (apply_all settings no_arguments)
read_arguments-write_all_example =
    read_arguments-write_all settings no_arguments (tt, (tt, ((omega arith, omega arith), tt)))

settings_read : read_arguments (write_all settings) no_arguments ≡ run_with result
unfolding apply_all
settings_read = read_arguments-write_all_example

-- An option without its value is an unknown argument.
value_missing : read_arguments (codes "-c" ∷ []) no_arguments ≡ unknown_argument (codes "-c")
unfolding read_arguments bytes_eq
value_missing = refl

zero_refused : read_arguments (codes "--stats-every=0" ∷ []) no_arguments ≡ not_positive
unfolding read_arguments bytes_eq
zero_refused = refl

word_refused : read_arguments (codes "--stats-every=x" ∷ []) no_arguments ≡ invalid_number
unfolding read_arguments bytes_eq
word_refused = refl

-- Help is shown before a later argument is looked at.
help_first : read_arguments (codes "-s" ∷ codes "-h" ∷ codes "?" ∷ []) no_arguments ≡ help
unfolding read_arguments bytes_eq
help_first = refl
