-- ===== src/Alarm/Tests.antt =====
-- Concrete alarms and streams of bytes, and the theorems at them.
use ivckolpak.Prelude.{◌≡◌, refl, true, false, List, [], ◌∷◌, ◌++◌, Option, none, some, length, map}
use ivckolpak.Prelude.Bytes.{Bytes, codes, bytes_eq, to_lower}
use ivckolpak.Prelude.Int.{pos}
use ivckolpak.Alarm.Event.{AlarmEvent, blank, is_start}
use ivckolpak.Alarm.Queue.{
  AlarmQueue, Op, push_op, pop_op, try_pop_op, shutdown_op, shutdown, run, pushed,
}
use ivckolpak.Alarm.Queue.Order.{pops, run_fifo, shutdown_drains}
use ivckolpak.Alarm.Frame.{find_json_end}
use ivckolpak.Alarm.Frame.Objects.{
  Chars, Body, char, escaped, plain, quoted, nested, show_object, find_json_end_lem,
}
use ivckolpak.Alarm.Decode.{string, number, Root, object}
use ivckolpak.Alarm.Server.{Processed, process_buffer, Served, received, run_client}
use ivckolpak.Alarm.Listener.{
  Event, accepted, client_ended, run_listener, start, new_listener, listener_keeps_threads,
}
use ivckolpak.Alarm.Server.Client.{joined, run_client_stream}
use ivckolpak.Alarm.Server.Settle.{Waits, process_buffer_settles}

abbrev first : AlarmEvent
first = record blank { serial_id = codes "A" }

abbrev second : AlarmEvent
second = record blank { serial_id = codes "B" }

abbrev holding : AlarmQueue
holding = record { queue = first ∷ second ∷ []; is_shutdown = false }

abbrev ops : List Op
ops = pop_op ∷ push_op first ∷ shutdown_op ∷ try_pop_op ∷ pop_op ∷ pop_op ∷ []

run_fifo_example : (run ops holding).0 ++ (run ops holding).1.queue ≡ holding.queue ++ pushed ops
run_fifo_example = run_fifo ops holding

shutdown_drains_example : pops 3 (shutdown holding) ≡ some (some first ∷ some second ∷ none ∷ [])
shutdown_drains_example = shutdown_drains holding

-- {"}\"":{}}
abbrev body : Body
body =
    quoted (char b'}' refl (escaped b'"' Chars.finish))
      (plain b':' refl (nested Body.finish Body.finish))

find_json_end_lem_example :
    find_json_end (show_object body [] ++ codes "}{") ≡ length (show_object body [])
find_json_end_lem_example = find_json_end_lem body (codes "}{")

shown : show_object body [] ≡ codes "{\"}\\\"\":{}}"
unfolding show_object
shown = refl

on : is_start (record blank { status = codes "ON" }) ≡ true
unfolding is_start bytes_eq to_lower
on = refl

-- A parser that knows one object.
abbrev parse : Bytes → Option Root
parse text = some (
    object (
      record { name = codes "Type"; value = string (codes "Alarm") }
      ∷ record { name = codes "Address"; value = string (codes "0x0A01a8C0") }
      ∷ record { name = codes "Channel"; value = number (codes "3") }
      ∷ []))

decoded :
    process_buffer parse (codes "..{}{")
    ≡ some (record {
      buffer = codes "{";
      alarms =
          record blank {
            type = codes "Alarm";
            address = codes "0xC0A8010A";
            address_ip = codes "192.168.1.10";
            channel = pos 3;
          }
          ∷ [];
      thrown = false;
    })
unfolding process_buffer bytes_eq
decoded = refl

process_buffer_settles_example :
    (p : Processed) × (process_buffer parse (codes "x{}{") ≡ some p)
    × (p.thrown ≡ false → Waits p.buffer)
process_buffer_settles_example = process_buffer_settles parse (codes "x{}{")

run_client_stream_example :
    (r : Processed) × (process_buffer parse (joined (codes "{" ∷ codes "}{" ∷ [])) ≡ some r)
    × ((c : Served) × (run_client parse (map received (codes "{" ∷ codes "}{" ∷ [])) [] ≡ some c)
        × (c.alarms ≡ r.alarms)
        × (c.thrown ≡ r.thrown))
run_client_stream_example = run_client_stream parse (codes "{" ∷ codes "}{" ∷ [])

-- Both clients are gone.
abbrev visits : List Event
visits = accepted 7 ∷ client_ended 7 ∷ accepted 8 ∷ client_ended 8 ∷ []

listener_keeps_threads_example :
    length (run_listener (some 3) true visits (start new_listener).0).client_threads ≡ 2
listener_keeps_threads_example = listener_keeps_threads 3 visits
