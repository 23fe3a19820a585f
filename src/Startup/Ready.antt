-- ===== src/Startup/Ready.antt =====
-- main.cpp: what holds when the program enters its loop.
use ivckolpak.Prelude.{
  ◌≡◌, refl, Bool, true, false, List, [], ◌∷◌, Option, none, some, if◌then◌else◌, arith, All,
}
use mathlib.Core.Path.{subst}
use ivckolpak.Prelude.Int.{ℤ, is_pos}
use ivckolpak.Prelude.Bytes.{Bytes, is_empty}
use ivckolpak.Prelude.Double.{Double}
use ivckolpak.Config.Types.{CameraConfig, ParsedConfig}
use ivckolpak.Config.Load.File.{
  LoadError, LoadState, Loaded, parsed, error, load_config, check_cameras, checked, finished,
  read_lines, load_start, end_camera,
}
use ivckolpak.Logger.{Logger}
use ivckolpak.CommandLine.{
  Cli, no_arguments, Outcome, run_with, help, help_full, not_positive, invalid_number,
  unknown_argument, read_arguments,
}
use ivckolpak.Alarm.Queue
use ivckolpak.Manager.{initialize_manager}
use ivckolpak.Startup.{
  Message, Started, Ending, exits, aborts, runs, Start, stats_interval, log_cameras, after_sessions,
  start_system, with_config, with_file, start_with, start_up,
}

-- The fields that a camera must have.
abbrev pub IsComplete : CameraConfig → Type 0
IsComplete c = (is_empty c.serialid ≡ false) × (is_empty c.rtsp_url ≡ false)

check_cameras-IsComplete : (cs : List CameraConfig) → check_cameras cs ≡ none → All IsComplete cs
unfolding check_cameras
check_cameras-IsComplete [] e = tt
check_cameras-IsComplete (c ∷ cs) e =
    ((ground arith, ground arith), check_cameras-IsComplete cs (ground arith))

-- What a program that runs has been given.
pub record IsReady (s : Started) : Type 0 where
  pub interval : is_pos s.stats_interval ≡ true
  pub some_camera : is_empty s.cfg.cameras ≡ false
  pub complete : All IsComplete s.cfg.cameras
  pub queue : s.queue ≡ Queue.empty
  pub manager : s.manager ≡ initialize_manager s.cfg

abbrev ReadyEnd : Ending → Type 0
ReadyEnd (exits code) = Unit
ReadyEnd aborts = Unit
ReadyEnd (runs s) = IsReady s

abbrev LoadedOk : Loaded → Type 0
LoadedOk (error e) = Unit
LoadedOk (parsed cfg) = All IsComplete cfg.cameras

checked-LoadedOk :
    (cfg : ParsedConfig) (o : Option LoadError)
    → check_cameras cfg.cameras ≡ o
    → LoadedOk (checked cfg o)
unfolding checked
checked-LoadedOk cfg none e = check_cameras-IsComplete cfg.cameras e
checked-LoadedOk cfg (some x) e = tt

finished-LoadedOk : (o : Option LoadState) → LoadedOk (finished o)
unfolding finished
finished-LoadedOk none = tt
finished-LoadedOk (some s) =
    checked-LoadedOk (record { global = s.global; cameras = (end_camera s).cameras })
      (check_cameras (end_camera s).cameras) refl

stats_interval-is_pos : (cli file : ℤ) → is_pos (stats_interval cli file) ≡ true
unfolding stats_interval
stats_interval-is_pos cli file = ground arith

after_sessions-ReadyEnd :
    (ndebug : Bool) (cli : Cli) (cfg : ParsedConfig) (p : Bool × Logger Message)
    → is_empty cfg.cameras ≡ false
    → All IsComplete cfg.cameras
    → ReadyEnd (after_sessions ndebug cli cfg p).ending
unfolding after_sessions
after_sessions-ReadyEnd ndebug cli cfg (false, l) n c = tt
after_sessions-ReadyEnd ndebug cli cfg (true, l) n c = record {
  interval = stats_interval-is_pos cli.stats_every cfg.global.stats_every_sec;
  some_camera = n;
  complete = c;
  queue = refl;
  manager = refl;
}

start_system-ReadyEnd :
    (make_dirs : Bytes → Bool) (ndebug : Bool) (cli : Cli) (cfg : ParsedConfig) (l : Logger Message)
    → is_empty cfg.cameras ≡ false
    → All IsComplete cfg.cameras
    → ReadyEnd (start_system make_dirs ndebug cli cfg l).ending
unfolding start_system
start_system-ReadyEnd make_dirs ndebug cli cfg l n c = after_sessions-ReadyEnd ndebug cli cfg _ n c

choose-ReadyEnd :
    (b : Bool) (s t : Start)
    → ReadyEnd s.ending
    → (b ≡ false → ReadyEnd t.ending)
    → ReadyEnd (if b then s else t).ending
choose-ReadyEnd true s t q r = q
choose-ReadyEnd false s t q r = r refl

module _ (stod : Bytes → Option Double) (open_file : Bytes → Option (List Bytes))
    (make_dirs : Bytes → Bool) (ndebug : Bool) where
  load_config-LoadedOk : (lines : List Bytes) → LoadedOk (load_config stod lines)
  unfolding load_config
  load_config-LoadedOk lines = finished-LoadedOk (read_lines stod lines load_start)

  with_config-ReadyEnd :
      (cli : Cli) (loaded : Loaded) (l : Logger Message)
      → LoadedOk loaded
      → ReadyEnd (with_config stod open_file make_dirs ndebug cli loaded l).ending
  unfolding with_config
  with_config-ReadyEnd cli (error e) l ok = tt
  with_config-ReadyEnd cli (parsed cfg) l ok =
      choose-ReadyEnd (is_empty cfg.cameras) _ _ tt (λ n.
        start_system-ReadyEnd make_dirs ndebug cli cfg (log_cameras ndebug cfg.cameras l) n ok)

  with_file-ReadyEnd :
      (cli : Cli) (file : Option (List Bytes)) (l : Logger Message)
      → ReadyEnd (with_file stod open_file make_dirs ndebug cli file l).ending
  unfolding with_file
  with_file-ReadyEnd cli none l = tt
  with_file-ReadyEnd cli (some lines) l =
      with_config-ReadyEnd cli (load_config stod lines) l (load_config-LoadedOk lines)

  start_with-ReadyEnd :
      (o : Outcome) (l : Logger Message)
      → ReadyEnd (start_with stod open_file make_dirs ndebug o l).ending
  unfolding start_with
  start_with-ReadyEnd help l = tt
  start_with-ReadyEnd help_full l = tt
  start_with-ReadyEnd not_positive l = tt
  start_with-ReadyEnd invalid_number l = tt
  start_with-ReadyEnd (unknown_argument arg) l = tt
  start_with-ReadyEnd (run_with cli) l = with_file-ReadyEnd cli (open_file cli.config_path) _

  -- Whatever the arguments and the files are: a program that enters its loop has a positive interval for
  -- its statistics, at least one camera, a serial number and a stream address for each camera, an empty
  -- queue, and the manager initialized for these cameras.
  pub started-IsReady :
      (args : List Bytes) (l : Logger Message) (s : Started)
      → (start_up stod open_file make_dirs ndebug args l).ending ≡ runs s
      → IsReady s
  unfolding start_up
  started-IsReady args l s e =
      subst ReadyEnd e (start_with-ReadyEnd (read_arguments args no_arguments) l)
