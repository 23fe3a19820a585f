-- ===== src/Startup/Tests.antt =====
-- Starts of the program with a small file.
use ivckolpak.Prelude.{◌≡◌, refl, Bool, true, false, List, [], ◌∷◌, Option, none, some}
use ivckolpak.Prelude.Int.{pos}
use ivckolpak.Prelude.Bytes.{Bytes, codes, bytes_eq}
use ivckolpak.Prelude.Double.{Double}
use ivckolpak.Config.Types.{ParsedConfig}
use ivckolpak.Config.Load.File.{Loaded, parsed, load_config}
use ivckolpak.Logger.{Logger}
use ivckolpak.CommandLine.{Cli, no_arguments, run_with, read_arguments}
use ivckolpak.Manager.{initialize_manager}
use ivckolpak.Alarm.Queue
use ivckolpak.Startup.{Message, Started, runs, exits, aborts, start_up}
use ivckolpak.Startup.Ready.{IsReady, started-IsReady}
use ivckolpak.Startup.Silent.{silent_start}
use ivckolpak.Samples.{global}

abbrev stod : Bytes → Option Double
stod v = none

abbrev lines : List Bytes
lines = codes "[camera]" ∷ codes "serialid = S1" ∷ codes "rtsp = rtsp://10.0.0.7/" ∷ []

-- Every file has these lines.
abbrev open_file : Bytes → Option (List Bytes)
open_file path = some lines

abbrev no_files : Bytes → Option (List Bytes)
no_files path = none

abbrev all_dirs : Bytes → Bool
all_dirs path = true

abbrev fresh_logger : Logger Message
fresh_logger = record { logs_enabled = true; lines = [] }

abbrev quiet_args : List Bytes
quiet_args = codes "-s" ∷ codes "--stats-every=10" ∷ []

abbrev quiet : Cli
quiet = record no_arguments { silent = true; stats_every = pos 10 }

quiet_read : read_arguments quiet_args no_arguments ≡ run_with quiet
unfolding read_arguments bytes_eq
quiet_read = refl

silent_start_example :
    (start_up stod no_files all_dirs true quiet_args fresh_logger).logger.lines ≡ []
silent_start_example =
    silent_start stod no_files all_dirs true quiet_args quiet fresh_logger quiet_read refl

-- The configuration error is not shown.
silent_error : (start_up stod no_files all_dirs true quiet_args fresh_logger).ending ≡ exits 1
unfolding start_up bytes_eq
silent_error = refl

abbrev config_of : Loaded → ParsedConfig
config_of (parsed cfg) = cfg
config_of (Loaded.error e) = record { global = global; cameras = [] }

abbrev cfg : ParsedConfig
cfg = config_of (load_config stod lines)

abbrev begun : Started
begun = record {
  cfg = cfg;
  stats_interval = pos 10;
  queue = Queue.empty;
  manager = initialize_manager cfg;
}

begins : (start_up stod open_file all_dirs true quiet_args fresh_logger).ending ≡ runs begun
unfolding start_up bytes_eq load_config
begins = refl

started-IsReady_example : IsReady begun
started-IsReady_example =
    started-IsReady stod open_file all_dirs true quiet_args fresh_logger begun begins

-- A directory that cannot be made ends the program by an exception.
no_directory :
    (start_up stod open_file (λ path. false) true quiet_args fresh_logger).ending ≡ aborts
unfolding start_up bytes_eq load_config
no_directory = refl
