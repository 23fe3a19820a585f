-- ===== src/Program/Tests.antt =====
-- A run of the program with two cameras and one client.
use ivckolpak.Prelude.{
  ◌≡◌, refl, Bool, true, false, List, [], ◌∷◌, ◌++◌, Option, none, some, All, arith,
}
use ivckolpak.Prelude.Int.{pos, ◌≤ℤ◌}
use ivckolpak.Prelude.Bytes.{Bytes, codes, bytes_eq}
use ivckolpak.Prelude.Double.{Double}
use ivckolpak.Config.Types.{ParsedConfig}
use ivckolpak.Config.Load.File.{Loaded, parsed, load_config}
use ivckolpak.Logger.{Logger}
use ivckolpak.Alarm.Decode.{string, Root, object}
use ivckolpak.Alarm.Server.{Served, run_client}
use ivckolpak.Alarm.Queue
use ivckolpak.Manager.{initialize_manager}
use ivckolpak.Startup.{Message, Started, runs, start_up}
use ivckolpak.Program.{
  Program, started, Op, client_data, alarm_round, monitor_round, connection_lost, end_of_main, run,
}
use ivckolpak.Program.Valid.{IsSound}
use ivckolpak.Program.Delivery.{alarms_delivered, reads}
use ivckolpak.Program.Whole.{IsClosed, program_closes_files, program-IsSound}
use ivckolpak.Samples.{global, meets}

-- Every object is a start of camera S1.
abbrev parse : Bytes → Option Root
parse text = some (
    object (
      record { name = codes "SerialID"; value = string (codes "S1") }
      ∷ record { name = codes "Status"; value = string (codes "Start") }
      ∷ record { name = codes "Type"; value = string (codes "Alarm") }
      ∷ []))

abbrev stod : Bytes → Option Double
stod v = none

abbrev lines : List Bytes
lines = codes "[camera]" ∷ codes "serialid = S1" ∷ codes "rtsp = rtsp://10.0.0.7/" ∷ []

abbrev open_file : Bytes → Option (List Bytes)
open_file path = some lines

abbrev all_dirs : Bytes → Bool
all_dirs path = true

abbrev logger : Logger Message
logger = record { logs_enabled = true; lines = [] }

abbrev config_of : Loaded → ParsedConfig
config_of (parsed cfg) = cfg
config_of (Loaded.error e) = record { global = global; cameras = [] }

abbrev cfg : ParsedConfig
cfg = config_of (load_config stod lines)

abbrev begun : Started
begun = record {
  cfg = cfg;
  stats_interval = pos 2;
  queue = Queue.empty;
  manager = initialize_manager cfg;
}

begins : (start_up stod open_file all_dirs true [] logger).ending ≡ runs begun
unfolding start_up bytes_eq load_config
begins = refl

-- An alarm in two reads, and what the manager does between them.
abbrev ops : List Op
ops =
    client_data 7 (codes "{\"")
    ∷ alarm_round meets
    ∷ monitor_round meets
    ∷ client_data 7 (codes "\"}")
    ∷ alarm_round meets
    ∷ connection_lost 0 true
    ∷ []

not_negative : pos 0 ≤ℤ begun.cfg.global.pre_buffer_iframes
unfolding load_config bytes_eq
not_negative = omega arith

program-IsSound_example : (t : Program) × (run parse ops (started begun) ≡ some t) × IsSound t
program-IsSound_example = program-IsSound parse begun ops refl not_negative

program_closes_files_example :
    (t : Program) × (run parse (ops ++ end_of_main (λ i. true) ∷ []) (started begun) ≡ some t)
    × (t.crashed ≡ false → All IsClosed t.manager.nodes)
program_closes_files_example =
    program_closes_files parse stod open_file all_dirs true [] logger begun ops (λ i. true) begins
      not_negative

abbrev last : Program
last = (program-IsSound parse begun ops refl not_negative).0

last_reached : run parse ops (started begun) ≡ some last
last_reached = (program-IsSound parse begun ops refl not_negative).1

alarms_delivered_example :
    (r : Served) × (run_client parse (reads ops) [] ≡ some r)
    × (last.handled ++ last.queue.queue ≡ r.alarms)
alarms_delivered_example =
    alarms_delivered parse 7 ops begun last (refl, (tt, (tt, (refl, (tt, (tt, tt)))))) refl
      last_reached
