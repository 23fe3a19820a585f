-- ===== src/Manager.antt =====
-- camera_manager.cpp: alarms find their camera, and events that last too long are ended.
pub mod Index
pub mod Stops
pub mod Timeouts
pub mod Registered
mod Tests
use ivckolpak.Prelude.{
  ℕ, zero, suc, ◌≡◌, refl, Bool, true, false, List, [], ◌∷◌, ◌++◌, Option, none, some,
  if◌then◌else◌, get_elem?, set,
}
use ivckolpak.Prelude.Int.{ℤ, is_pos}
use ivckolpak.Prelude.Bytes.{Bytes, codes}
use ivckolpak.Prelude.Assoc.{Assoc, lookup, insert, erase}
use ivckolpak.Prelude.Double.{Double, ltb_double, leb_double, zero_double}
use ivckolpak.Alarm.Event.{AlarmEvent, blank, is_start, is_stop}
use ivckolpak.Config.Types.{CameraConfig, GlobalConfig, ParsedConfig}
use ivckolpak.Config.Address.{extract_ip_hex_from_rtsp, hex_to_ip}
use ivckolpak.Session.State.{Library, OpenReply, Moment}
use ivckolpak.Stream.Lifecycle.{Lifecycle}
use ivckolpak.Node.{Node, StreamView, start_stream, new_node, initialize, on_alarm}

-- `ActiveEvent`; the time is a reading of the steady clock.
pub record ActiveEvent : Type 0 where
  pub start_time : ℕ
  pub node_idx : ℕ
  pub timeout_override : Double

-- The three indices of the cameras.
pub record Indices : Type 0 where
  pub by_serial : Assoc ℕ
  pub by_hex : Assoc ℕ
  pub by_dotted : Assoc ℕ

pub record Manager : Type 0 where
  pub cfg : ParsedConfig
  pub nodes : List Node
  pub indices : Indices
  pub active : Assoc ActiveEvent

abbrev pub no_indices : Indices
no_indices = record { by_serial = []; by_hex = []; by_dotted = [] }

-- A camera's own number of key frames, or the global one.
abbrev or_global : ℤ → ℤ → ℤ
or_global own global = if is_pos own then own else global

-- The node of a camera; its `initialize` always succeeds.
unfoldable pub node_of : GlobalConfig → CameraConfig → Node
unfolding new_node initialize
node_of g c =
    (initialize (
      new_node c (or_global c.pre_buffer_iframes g.pre_buffer_iframes)
        (or_global c.post_buffer_iframes g.post_buffer_iframes))).0

unfoldable pub make_nodes : GlobalConfig → List CameraConfig → List Node
unfolding node_of
make_nodes g [] = []
make_nodes g (c ∷ cs) = node_of g c ∷ make_nodes g cs

-- The camera `c` is entered under the number `i`.
unfoldable pub enter : CameraConfig → ℕ → Indices → Indices
unfolding insert extract_ip_hex_from_rtsp hex_to_ip
enter c i x =
    let h = extract_ip_hex_from_rtsp c.rtsp_url in
    record {
      by_serial = insert c.serialid i x.by_serial;
      by_hex = insert h i x.by_hex;
      by_dotted = insert (hex_to_ip h) i x.by_dotted;
    }

-- The loop over the cameras, from number `i` on.
unfoldable pub enter_all : List CameraConfig → ℕ → Indices → Indices
unfolding enter
enter_all [] i x = x
enter_all (c ∷ cs) i x = enter_all cs (suc i) (enter c i x)

unfoldable pub initialize_manager : ParsedConfig → Manager
unfolding make_nodes enter_all
initialize_manager cfg = record {
  cfg = cfg;
  nodes = make_nodes cfg.global cfg.cameras;
  indices = enter_all cfg.cameras 0 no_indices;
  active = [];
}

-- The first of the results that is there.
abbrev pub or_else : Option ℕ → Option ℕ → Option ℕ
or_else none b = b
or_else (some i) b = some i

-- None is the source's -1.
unfoldable pub find_idx : Bytes → Bytes → Bytes → Indices → Option ℕ
unfolding lookup
find_idx s h d x =
    or_else (lookup s x.by_serial) (or_else (lookup h x.by_hex) (lookup d x.by_dotted))

-- How long an event of this camera may last.
unfoldable pub timeout_of : GlobalConfig → Option CameraConfig → Double
timeout_of g none = g.max_event_total_duration_s
timeout_of g (some c) =
    if ltb_double zero_double c.max_event_total_duration_s
    then c.max_event_total_duration_s
    else g.max_event_total_duration_s

-- A start opens the event of its serial number, a stop closes it.
unfoldable pub note_event : ℕ → ℕ → AlarmEvent → Manager → Manager
unfolding insert erase timeout_of
note_event now idx evt m =
    if is_start evt
    then record m {
      active =
          insert evt.serial_id
            (record {
              start_time = now;
              node_idx = idx;
              timeout_override = timeout_of m.cfg.global (get_elem? m.cfg.cameras idx);
            })
            m.active;
    }
    else if is_stop evt
    then record m { active = erase evt.serial_id m.active }
    else m

-- What a call of a node meets.
pub record Meets : Type 0 where
  pub lib : Library
  pub at : Moment
  pub reply : OpenReply
  pub view : StreamView

unfoldable pub alarm_at : Meets → AlarmEvent → ℕ → List Node → Option Node → List Node
unfolding on_alarm
alarm_at w evt idx nodes none = nodes
alarm_at w evt idx nodes (some n) = set nodes idx (on_alarm w.lib w.at w.reply w.view evt n)

unfoldable pub alarm_node : Meets → AlarmEvent → ℕ → List Node → List Node
unfolding alarm_at
alarm_node w evt idx nodes = alarm_at w evt idx nodes (get_elem? nodes idx)

-- The event goes to the node of this number, and is noted, where there is one.
unfoldable pub dispatch_at : Meets → AlarmEvent → ℕ → Manager → Option Node → Manager
unfolding alarm_node note_event
dispatch_at w evt idx m none = m
dispatch_at w evt idx m (some n) =
    note_event w.at.now idx evt (record m { nodes = alarm_node w evt idx m.nodes })

unfoldable pub dispatch : Meets → AlarmEvent → Option ℕ → Manager → Manager
unfolding dispatch_at
dispatch w evt none m = m
dispatch w evt (some idx) m = dispatch_at w evt idx m (get_elem? m.nodes idx)

-- One round of `alarm_loop`, with an event.
unfoldable pub on_event : Meets → AlarmEvent → Manager → Manager
unfolding dispatch find_idx
on_event w evt m = dispatch w evt (find_idx evt.serial_id evt.address evt.address_ip m.indices) m

-- Whether an event has lasted too long.
unfoldable pub has_expired : Library → ℕ → ActiveEvent → Bool
has_expired lib now e = leb_double e.timeout_override (lib.seconds e.start_time now)

-- The loop over the active events: those that go on, and those that are over with their nodes.
unfoldable pub split_expired :
    Library → ℕ → Assoc ActiveEvent → Assoc ActiveEvent × List (Bytes × ℕ)
unfolding has_expired
split_expired lib now [] = ([], [])
split_expired lib now ((k, e) ∷ es) =
    let (going, over) = split_expired lib now es in
    if has_expired lib now e then (going, (k, e.node_idx) ∷ over) else ((k, e) ∷ going, over)

-- The alarm that ends an event.
abbrev pub timeout_stop : Bytes → AlarmEvent
timeout_stop serial = record blank {
  serial_id = serial;
  status = codes "Stop";
  type = codes "Alarm";
  event_type = codes "Timeout";
}

unfoldable pub stop_all : Meets → List (Bytes × ℕ) → List Node → List Node
unfolding alarm_node
stop_all w [] nodes = nodes
stop_all w ((serial, idx) ∷ over) nodes =
    stop_all w over (alarm_node w (timeout_stop serial) idx nodes)

unfoldable pub check_timeouts : Meets → Manager → Manager
unfolding split_expired stop_all
check_timeouts w m =
    if leb_double m.cfg.global.max_event_total_duration_s zero_double
    then m
    else (let (going, over) = split_expired w.lib w.at.now m.active in
        record m { active = going; nodes = stop_all w over m.nodes })

-- `start`, where the manager's threads do not run yet: the streams of its nodes are started in turn.
unfoldable pub start_streams : Bool → List Node → List Lifecycle → List Lifecycle
unfolding start_stream
start_streams running [] xs = xs
start_streams running (n ∷ ns) [] = []
start_streams running (n ∷ ns) (x ∷ xs) =
    let rest = start_streams running ns xs in if running then x ∷ xs else start_stream n x ∷ rest
