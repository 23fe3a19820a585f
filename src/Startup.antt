-- ===== src/Startup.antt =====
-- main.cpp: the start of the program, up to its loop.
pub mod Silent
pub mod Ready
mod Tests
use ivckolpak.Prelude.{ℕ, Bool, true, false, List, [], ◌∷◌, Option, none, some, if◌then◌else◌}
use ivckolpak.Prelude.Int.{ℤ, pos, is_pos}
use ivckolpak.Prelude.Bytes.{Bytes, codes, is_empty}
use ivckolpak.Prelude.Double.{Double}
use ivckolpak.Config.Types.{CameraConfig, GlobalConfig, ParsedConfig}
use ivckolpak.Config.Load.File.{LoadError, Loaded, parsed, error, load_config}
use ivckolpak.Logger.{Logger, LogLevel, info, set_enabled, log}
use ivckolpak.Logger
use ivckolpak.CommandLine.{
  Cli, no_arguments, Outcome, run_with, help, help_full, not_positive, invalid_number,
  unknown_argument, read_arguments,
}
use ivckolpak.Alarm.Queue.{AlarmQueue}
use ivckolpak.Alarm.Queue
use ivckolpak.Manager.{Manager, initialize_manager}

-- What the thread of `main` logs until its loop, in `load_config`, the constructors of the sessions and the
-- starts of the streams and the server too; none is a file that cannot be opened.
pub data Message : Type 0 where
  session_created : (name : Bytes) → Message
  stream_starting : (url : Bytes) → Message
  read_timeout : ℤ → Message
  server_starting : (port : ℤ) → Message
  loaded_camera : (name serialid : Bytes) → Message
  no_cameras : Message
  config_error : Option LoadError → Message
  running_on : ℤ → Message
  interval_of : ℤ → Message

-- What stands on the other streams: help, or the complaint about an argument.
pub data Printed : Type 0 where
  nothing usage full_usage positive_wanted number_wanted : Printed
  unknown : Bytes → Printed

-- The program as it enters its loop.
pub record Started : Type 0 where
  pub cfg : ParsedConfig
  pub stats_interval : ℤ
  pub queue : AlarmQueue
  pub manager : Manager

-- `aborts` is an exception that nothing catches, with the message of the runtime.
pub data Ending : Type 0 where
  exits : (code : ℕ) → Ending
  aborts : Ending
  runs : Started → Ending

pub record Start : Type 0 where
  pub ending : Ending
  pub printed : Printed
  pub logger : Logger Message

abbrev quits : ℕ → Printed → Logger Message → Start
quits code printed l = record { ending = exits code; printed = printed; logger = l }

-- The option, else the setting of the file, else 2.
unfoldable pub stats_interval : ℤ → ℤ → ℤ
stats_interval cli file =
    let chosen = if is_pos cli then cli else file in if is_pos chosen then chosen else pos 2

-- The loop of `load_config` that names the cameras; the flag says whether NDEBUG is defined.
unfoldable pub log_cameras : Bool → List CameraConfig → Logger Message → Logger Message
unfolding log
log_cameras ndebug [] l = l
log_cameras ndebug (c ∷ cs) l =
    log_cameras ndebug cs (log ndebug info (codes "CONFIG") (loaded_camera c.name c.serialid) l)

-- The loop of `initialize` over the cameras, each of which makes its session: the constructor creates the
-- directory, which can throw, and names the camera.
unfoldable pub create_sessions :
    (Bytes → Bool) → Bool → List CameraConfig → Logger Message → Bool × Logger Message
unfolding log
create_sessions make_dirs ndebug [] l = (true, l)
create_sessions make_dirs ndebug (c ∷ cs) l =
    let rest =
      create_sessions make_dirs ndebug cs
        (log ndebug info (codes "SESSION") (session_created c.name) l) in
    if make_dirs c.target_dir then rest else (false, l)

-- The starts of the streams; their threads log on their own.
unfoldable pub log_streams : Bool → List CameraConfig → Logger Message → Logger Message
unfolding log
log_streams ndebug [] l = l
log_streams ndebug (c ∷ cs) l = log_streams ndebug cs (
    log ndebug info (codes "RTSP") (read_timeout (pos 10000))
      (log ndebug info (codes "RTSP") (stream_starting c.rtsp_url) l))

-- After `initialize`, which has returned or thrown.
unfoldable pub after_sessions : Bool → Cli → ParsedConfig → Bool × Logger Message → Start
unfolding stats_interval initialize_manager log_streams log
after_sessions ndebug cli cfg (false, l) = record { ending = aborts; printed = nothing; logger = l }
after_sessions ndebug cli cfg (true, l) =
    let interval = stats_interval cli.stats_every cfg.global.stats_every_sec in
    let port = cfg.global.alarm_server_port in
    record {
      ending = runs (record {
        cfg = cfg;
        stats_interval = interval;
        queue = Queue.empty;
        manager = initialize_manager cfg;
      });
      printed = nothing;
      logger = log ndebug info (codes "MAIN") (interval_of interval) (
          log ndebug info (codes "MAIN") (running_on port) (
            log ndebug info (codes "ALARM") (server_starting port)
              (log_streams ndebug cfg.cameras l)));
    }

-- From the test of `disable_logs` on.
unfoldable pub start_system : (Bytes → Bool) → Bool → Cli → ParsedConfig → Logger Message → Start
unfolding create_sessions after_sessions set_enabled
start_system make_dirs ndebug cli cfg l = after_sessions ndebug cli cfg (
    create_sessions make_dirs ndebug cfg.cameras
      (if cfg.global.disable_logs then set_enabled false l else l))

-- `std::stod`, the files that can be opened with their lines, the directories that can be created, and whether
-- NDEBUG is defined.
module _ (stod : Bytes → Option Double) (open_file : Bytes → Option (List Bytes))
    (make_dirs : Bytes → Bool) (ndebug : Bool) where
  -- The result of `load_config`; an exception ends the program.
  unfoldable pub with_config : Cli → Loaded → Logger Message → Start
  unfolding start_system log_cameras log
  with_config cli (error e) l =
      quits 1 nothing (log ndebug LogLevel.error (codes "MAIN") (config_error (some e)) l)
  with_config cli (parsed cfg) l =
      let named = log_cameras ndebug cfg.cameras l in
      if is_empty cfg.cameras
      then quits 1 nothing (log ndebug LogLevel.error (codes "MAIN") no_cameras named)
      else start_system make_dirs ndebug cli cfg named

  unfoldable pub with_file : Cli → Option (List Bytes) → Logger Message → Start
  unfolding with_config load_config log
  with_file cli none l =
      quits 1 nothing (log ndebug LogLevel.error (codes "MAIN") (config_error none) l)
  with_file cli (some lines) l = with_config cli (load_config stod lines) l

  -- After the loop over the arguments.
  unfoldable pub start_with : Outcome → Logger Message → Start
  unfolding with_file set_enabled
  start_with help l = quits 0 usage l
  start_with help_full l = quits 0 full_usage l
  start_with not_positive l = quits 1 positive_wanted l
  start_with invalid_number l = quits 1 number_wanted l
  start_with (unknown_argument arg) l = quits 1 (unknown arg) l
  start_with (run_with cli) l =
      with_file cli (open_file cli.config_path) (if cli.silent then set_enabled false l else l)

  -- `main` with these arguments, up to its loop.
  unfoldable pub start_up : List Bytes → Logger Message → Start
  unfolding start_with read_arguments
  start_up args l = start_with (read_arguments args no_arguments) l
