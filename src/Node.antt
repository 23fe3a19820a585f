-- ===== src/Node.antt =====
-- camera_node.cpp: a camera joins a stream and a recording session.
pub mod Valid
use ivckolpak.Prelude.{
  ℕ, ◌+◌, ◌≡◌, refl, Bool, true, false, not, ◌&&◌, List, [], ◌∷◌, ◌++◌, Option, none, some,
  if◌then◌else◌,
}
use ivckolpak.Prelude.Int.{ℤ, pos, ◌+ℤ◌, is_pos}
use ivckolpak.Prelude.Bytes.{Bytes, is_empty}
use ivckolpak.Alarm.Event.{AlarmEvent, is_start, is_stop}
use ivckolpak.Config.Types.{CameraConfig}
use ivckolpak.Session.Packet.{AvPacket}
use ivckolpak.Session.State.{
  State, idle, pre_buffer, recording, finalizing, post_buffer, SessionConfig, CodecParams,
  StreamInfo, Session, new_session, Library, OpenReply, Moment, RotateReply,
}
use ivckolpak.Session.Push.{push_packet}
use ivckolpak.Stream.Lifecycle.{Lifecycle, start}
use ivckolpak.Session.Control.{start_event, continue_event, stop_event, force_stop, shutdown}

-- What the node reads of its stream: `is_alive`, `get_codec_params` and `get_stream_info`.
pub record StreamView : Type 0 where
  pub is_alive : Bool
  pub codec_params : Option CodecParams
  pub info : StreamInfo

-- A call of `execute_script_async`.
pub record Script : Type 0 where
  pub cmd : Bytes
  pub evt : Option AlarmEvent

pub record Node : Type 0 where
  pub cfg : CameraConfig
  pub session : Session
  pub initialized : Bool
  pub event_counter : ℤ
  pub scripts : List Script

-- The constructor, as far as it makes the session. The callback of the session is always set; it
-- runs a script where the camera has one.
unfoldable pub new_node : CameraConfig → ℤ → ℤ → Node
unfolding new_session
new_node cfg pre post = record {
  cfg = cfg;
  session = new_session (record {
    camera_cfg = cfg;
    pre_buffer_iframes = pre;
    post_buffer_iframes = post;
    on_video_save = true;
  });
  initialized = false;
  event_counter = pos 0;
  scripts = [];
}

-- The delays that the constructor gives to the stream.
unfoldable pub stream_delays : CameraConfig → ℤ × ℤ
stream_delays cfg = (
  if is_pos cfg.reconnect_delay_ms then cfg.reconnect_delay_ms else pos 3000,
  if is_pos cfg.reconnect_max_delay_ms then cfg.reconnect_max_delay_ms else pos 30000,
)

unfoldable pub initialize : Node → Node × Bool
initialize n = if n.initialized then (n, true) else (record n { initialized = true }, true)

-- `start`: what becomes of the node's stream.
unfoldable pub start_stream : Node → Lifecycle → Lifecycle
unfolding start
start_stream n x = if n.initialized then start x else x

-- `stop`; the stream is stopped before the session.
unfoldable pub stop : Bool → Node → Node
unfolding shutdown
stop trailer_ok n =
    if n.initialized
    then record n { initialized = false; session = shutdown trailer_ok n.session }
    else n

unfoldable pub on_rtsp_connection_lost : Bool → Node → Node
unfolding force_stop
on_rtsp_connection_lost trailer_ok n =
    if n.initialized then record n { session = force_stop trailer_ok n.session } else n

-- None where the call does not return.
unfoldable pub on_packet : Library → ℕ → RotateReply → AvPacket → Node → Option Node
unfolding push_packet
on_packet lib now r p n = elim (push_packet lib now r (some p) n.session) [
  | none ↦ none
  | some s ↦ some (record n { session = s })
]

-- A script runs where the camera has one.
unfoldable pub run_script : Bytes → AlarmEvent → Node → Node
run_script cmd evt n =
    if is_empty cmd
    then n
    else record n { scripts = n.scripts ++ record { cmd = cmd; evt = some evt } ∷ [] }

unfoldable pub is_recording : State → Bool
is_recording recording = true
is_recording post_buffer = true
is_recording idle = false
is_recording pre_buffer = false
is_recording finalizing = false

unfoldable pub continue_alarm : AlarmEvent → Node → Node
unfolding run_script continue_event
continue_alarm evt n =
    let m = run_script n.cfg.on_event_start evt n in
    record m { session = continue_event evt m.session }

-- A session without codec parameters is not started.
start_with :
    Library → Moment → OpenReply → AlarmEvent → Option CodecParams → StreamInfo → Session → Session
unfolding start_event
start_with lib at r evt none info s = s
start_with lib at r evt (some codec) info s =
    if info.valid then start_event lib at r evt (some codec) info s else s

unfoldable pub new_alarm : Library → Moment → OpenReply → StreamView → AlarmEvent → Node → Node
unfolding run_script start_with
new_alarm lib at r view evt n =
    let m =
      run_script n.cfg.on_event_start evt (record n { event_counter = n.event_counter +ℤ pos 1 }) in
    record m { session = start_with lib at r evt view.codec_params view.info m.session }

unfoldable pub stop_alarm : AlarmEvent → Node → Node
unfolding run_script stop_event
stop_alarm evt n =
    let m = run_script n.cfg.on_event_stop evt n in record m { session = stop_event m.session }

unfoldable pub on_alarm : Library → Moment → OpenReply → StreamView → AlarmEvent → Node → Node
unfolding continue_alarm new_alarm stop_alarm is_recording
on_alarm lib at r view evt n =
    if not n.initialized
    then n
    else if is_stop evt
    then stop_alarm evt n
    else if not view.is_alive
    then n
    else if is_start evt
    then (if is_recording n.session.state
        then continue_alarm evt n
        else new_alarm lib at r view evt n)
    else n
