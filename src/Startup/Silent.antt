-- ===== src/Startup/Silent.antt =====
-- main.cpp: the messages of a silent start.
use ivckolpak.Prelude.{
  ◌≡◌, refl, ◌∙◌, ap, Bool, true, false, List, [], ◌∷◌, Option, none, some, if◌then◌else◌, arith,
}
use ivckolpak.Prelude.Bytes.{Bytes, codes, is_empty}
use ivckolpak.Prelude.Double.{Double}
use ivckolpak.Config.Types.{CameraConfig, ParsedConfig}
use ivckolpak.Config.Load.File.{Loaded, parsed, error, load_config}
use ivckolpak.Logger.{Logger, LogLevel, info, set_enabled, log}
use ivckolpak.CommandLine.{Cli, no_arguments, run_with, read_arguments}
use ivckolpak.Startup.{
  Message, Start, log_cameras, create_sessions, log_streams, after_sessions, start_system,
  with_config, with_file, start_with, start_up,
}

-- Nothing is written from `l` on, and logging is off.
data IsQuiet (l m : Logger Message) : Type 0 where
  quiet : m.logs_enabled ≡ false → m.lines ≡ l.lines → IsQuiet l m

log-IsQuiet :
    (ndebug : Bool) (level : LogLevel) (name : Bytes) (message : Message) (l m : Logger Message)
    → IsQuiet l m
    → IsQuiet l (log ndebug level name message m)
unfolding log
log-IsQuiet ndebug level name message l m (quiet off same) =
    quiet (ground (arith, off)) (ground (arith, off, same))

set_enabled-IsQuiet : (l m : Logger Message) → IsQuiet l m → IsQuiet l (set_enabled false m)
unfolding set_enabled
set_enabled-IsQuiet l m (quiet off same) = quiet refl same

off : (l : Logger Message) → IsQuiet l (set_enabled false l)
unfolding set_enabled
off l = quiet refl refl

quiet-lines : (l m : Logger Message) → IsQuiet l m → m.lines ≡ l.lines
quiet-lines l m (quiet off same) = same

choose-IsQuiet :
    (l : Logger Message) (b : Bool) (m n : Logger Message)
    → IsQuiet l m
    → IsQuiet l n
    → IsQuiet l (if b then m else n)
choose-IsQuiet l true m n q r = q
choose-IsQuiet l false m n q r = r

choose_start :
    (l : Logger Message) (b : Bool) (s t : Start)
    → IsQuiet l s.logger
    → IsQuiet l t.logger
    → IsQuiet l (if b then s else t).logger
choose_start l true s t q r = q
choose_start l false s t q r = r

log_cameras-IsQuiet :
    (ndebug : Bool) (cs : List CameraConfig) (l m : Logger Message)
    → IsQuiet l m
    → IsQuiet l (log_cameras ndebug cs m)
unfolding log_cameras
log_cameras-IsQuiet ndebug [] l m q = q
log_cameras-IsQuiet ndebug (c ∷ cs) l m q =
    log_cameras-IsQuiet ndebug cs l _ (log-IsQuiet ndebug info (codes "CONFIG") _ l m q)

choose_created :
    (l : Logger Message) (b : Bool) (p q : Bool × Logger Message)
    → IsQuiet l p.1
    → IsQuiet l q.1
    → IsQuiet l (if b then p else q).1
choose_created l true p q r t = r
choose_created l false p q r t = t

create_sessions-IsQuiet :
    (make_dirs : Bytes → Bool) (ndebug : Bool) (cs : List CameraConfig) (l m : Logger Message)
    → IsQuiet l m
    → IsQuiet l (create_sessions make_dirs ndebug cs m).1
unfolding create_sessions
create_sessions-IsQuiet make_dirs ndebug [] l m q = q
create_sessions-IsQuiet make_dirs ndebug (c ∷ cs) l m q =
    choose_created l (make_dirs c.target_dir) _ (false, m)
      (create_sessions-IsQuiet make_dirs ndebug cs l _
        (log-IsQuiet ndebug info (codes "SESSION") _ l m q))
      q

log_streams-IsQuiet :
    (ndebug : Bool) (cs : List CameraConfig) (l m : Logger Message)
    → IsQuiet l m
    → IsQuiet l (log_streams ndebug cs m)
unfolding log_streams
log_streams-IsQuiet ndebug [] l m q = q
log_streams-IsQuiet ndebug (c ∷ cs) l m q =
    log_streams-IsQuiet ndebug cs l _ (
      log-IsQuiet ndebug info (codes "RTSP") _ l _ (log-IsQuiet ndebug info (codes "RTSP") _ l m q))

after_sessions-IsQuiet :
    (ndebug : Bool) (cli : Cli) (cfg : ParsedConfig) (l : Logger Message)
    (p : Bool × Logger Message)
    → IsQuiet l p.1
    → IsQuiet l (after_sessions ndebug cli cfg p).logger
unfolding after_sessions
after_sessions-IsQuiet ndebug cli cfg l (false, m) q = q
after_sessions-IsQuiet ndebug cli cfg l (true, m) q = log-IsQuiet ndebug info (codes "MAIN") _ l _ (
    log-IsQuiet ndebug info (codes "MAIN") _ l _ (
      log-IsQuiet ndebug info (codes "ALARM") _ l _ (log_streams-IsQuiet ndebug cfg.cameras l m q)))

start_system-IsQuiet :
    (make_dirs : Bytes → Bool) (ndebug : Bool) (cli : Cli) (cfg : ParsedConfig)
    (l m : Logger Message)
    → IsQuiet l m
    → IsQuiet l (start_system make_dirs ndebug cli cfg m).logger
unfolding start_system
start_system-IsQuiet make_dirs ndebug cli cfg l m q = after_sessions-IsQuiet ndebug cli cfg l _ (
    create_sessions-IsQuiet make_dirs ndebug cfg.cameras l _
      (choose-IsQuiet l cfg.global.disable_logs _ m (set_enabled-IsQuiet l m q) q))

module _ (stod : Bytes → Option Double) (open_file : Bytes → Option (List Bytes))
    (make_dirs : Bytes → Bool) (ndebug : Bool) where
  with_config-IsQuiet :
      (cli : Cli) (loaded : Loaded) (l m : Logger Message)
      → IsQuiet l m
      → IsQuiet l (with_config stod open_file make_dirs ndebug cli loaded m).logger
  unfolding with_config
  with_config-IsQuiet cli (error e) l m q = log-IsQuiet ndebug LogLevel.error (codes "MAIN") _ l m q
  with_config-IsQuiet cli (parsed cfg) l m q =
      let named = log_cameras-IsQuiet ndebug cfg.cameras l m q in
      choose_start l (is_empty cfg.cameras) _ _
        (log-IsQuiet ndebug LogLevel.error (codes "MAIN") _ l _ named)
        (start_system-IsQuiet make_dirs ndebug cli cfg l _ named)

  with_file-IsQuiet :
      (cli : Cli) (file : Option (List Bytes)) (l m : Logger Message)
      → IsQuiet l m
      → IsQuiet l (with_file stod open_file make_dirs ndebug cli file m).logger
  unfolding with_file
  with_file-IsQuiet cli none l m q = log-IsQuiet ndebug LogLevel.error (codes "MAIN") _ l m q
  with_file-IsQuiet cli (some lines) l m q = with_config-IsQuiet cli (load_config stod lines) l m q

  -- With `-s` among arguments that are accepted, the thread of `main` writes no log line up to its loop, whatever
  -- the files hold and whether or not the program runs; a configuration error then ends it without a line, too.
  pub silent_start :
      (args : List Bytes) (cli : Cli) (l : Logger Message)
      → read_arguments args no_arguments ≡ run_with cli
      → cli.silent ≡ true
      → (start_up stod open_file make_dirs ndebug args l).logger.lines ≡ l.lines
  unfolding start_up start_with
  silent_start args cli l e s =
      ap (λ o. (start_with stod open_file make_dirs ndebug o l).logger.lines) e
      ∙ ap
          (λ b.
            (with_file stod open_file make_dirs ndebug cli (open_file cli.config_path)
              (if b then set_enabled false l else l)).logger.lines)
          s
      ∙ quiet-lines l _
          (with_file-IsQuiet cli (open_file cli.config_path) l (set_enabled false l) (off l))
