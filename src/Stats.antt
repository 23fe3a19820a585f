-- ===== src/Stats.antt =====
-- stats.hpp, and the statistics of a node, of all nodes, and of the thread in main.cpp that sums them.
pub mod Sums
mod Tests
use ivckolpak.Prelude.{ℕ, suc, ◌*◌, ◌^◌, ◌%◌, Bool, ◌&&◌, List, [], ◌∷◌, if◌then◌else◌, ltb}
use ivckolpak.Prelude.Int.{ℤ, is_pos}
use ivckolpak.Prelude.Word.{add64}
use ivckolpak.Prelude.Bytes.{Bytes, codes}
use ivckolpak.Prelude.Double.{Double, zero_double, is_zero_double}
use ivckolpak.Session.Analyzer.{Rational}
use ivckolpak.Session.State.{State, StreamInfo, Library}
use ivckolpak.Session.Control.{get_stats}
use ivckolpak.Node.{StreamView, Node}

pub data SessionState : Type 0 where
  idle pre_buffer recording finalizing post_buffer : SessionState

pub record CameraStats : Type 0 where
  pub name : Bytes
  pub serial_id : Bytes
  pub state : SessionState
  pub buffer_iframes : ℤ
  pub buffer_kb : ℕ
  pub total_pushed_frames : ℕ
  pub total_written_kb : ℕ
  pub total_read_bytes : ℕ
  pub detected_fps : Double
  pub rtsp_connected : Bool

unfoldable pub state_str : SessionState → Bytes
state_str idle = codes "IDLE"
state_str pre_buffer = codes "WAIT"
state_str recording = codes "REC"
state_str finalizing = codes "FIN"
state_str post_buffer = codes "POST"

-- The state of a session as the statistics have it.
unfoldable pub session_state : State → SessionState
session_state State.idle = idle
session_state State.pre_buffer = pre_buffer
session_state State.recording = recording
session_state State.finalizing = finalizing
session_state State.post_buffer = post_buffer

-- What `collect_stats` reads of the stream.
pub record StreamStats : Type 0 where
  pub view : StreamView
  pub total_bytes_read : ℕ

-- Where nothing is detected, the rate that the stream names.
unfoldable pub shown_fps : Library → StreamInfo → Double → Double
shown_fps lib info fps =
    if is_zero_double fps && (info.valid && is_pos info.frame_rate.num)
    then lib.q2d info.frame_rate
    else fps

unfoldable pub collect_stats : Library → StreamStats → Node → CameraStats
unfolding get_stats session_state shown_fps
collect_stats lib seen n =
    let stats = get_stats lib n.session in
    record {
      name = n.cfg.name;
      serial_id = n.cfg.serialid;
      state = session_state stats.state;
      buffer_iframes = stats.buffer_iframes;
      buffer_kb = stats.buffer_kb;
      total_pushed_frames = stats.total_pushed_frames;
      total_written_kb = stats.total_written_kb;
      total_read_bytes = seen.total_bytes_read;
      detected_fps = shown_fps lib seen.view.info stats.detected_fps;
      rtsp_connected = seen.view.is_alive;
    }

-- The statistics that the consumer gets, in their order: those of the nodes from number `i` on.
unfoldable pub collect_all : Library → (ℕ → StreamStats) → ℕ → List Node → List CameraStats
unfolding collect_stats
collect_all lib seen i [] = []
collect_all lib seen i (n ∷ ns) = collect_stats lib (seen i) n ∷ collect_all lib seen (suc i) ns

pub record Totals : Type 0 where
  pub total_read_bytes : ℕ
  pub total_written_bytes : ℕ

abbrev pub no_totals : Totals
no_totals = record { total_read_bytes = 0; total_written_bytes = 0 }

-- The consumer's additions on `uint64_t`.
unfoldable pub add_stats : CameraStats → Totals → Totals
add_stats s t = record {
  total_read_bytes = add64 t.total_read_bytes s.total_read_bytes;
  total_written_bytes = add64 t.total_written_bytes (s.total_written_kb * 1024 % 2 ^ 64);
}

unfoldable pub totals_from : List CameraStats → Totals → Totals
unfolding add_stats
totals_from [] t = t
totals_from (s ∷ ss) t = totals_from ss (add_stats s t)

-- The quotient is one of doubles, a parameter.
unfoldable pub ratio : (ℕ → ℕ → Double) → Totals → Double
ratio divide t =
    if ltb 0 t.total_read_bytes
    then divide t.total_written_bytes t.total_read_bytes
    else zero_double
