-- ===== src/Session/Control.antt =====
-- recording_session.cpp: the calls that start, continue and end an event, and the statistics.
use ivckolpak.Prelude.{
  ℕ, ◌/◌, List, [], ◌∷◌, Bool, true, false, not, ◌&&◌, Option, none, some, if◌then◌else◌,
}
use ivckolpak.Prelude.Int.{ℤ, pos, ◌+ℤ◌}
use ivckolpak.Prelude.Word.{add64}
use ivckolpak.Prelude.Bytes.{Bytes, is_empty}
use ivckolpak.Prelude.Double.{Double}
use ivckolpak.Alarm.Event.{AlarmEvent}
use ivckolpak.Session.Packet.{AvPacket, Packet}
use ivckolpak.Session.PreBuffer
use ivckolpak.Session.Analyzer.{fresh, analyze_packet, get_fps}
use ivckolpak.Session.State.{
  State, idle, pre_buffer, recording, finalizing, post_buffer, CodecParams, StreamInfo, Muxer,
  notified, Session, emit, Library, OpenReply, Moment,
}
use ivckolpak.Session.Muxer.{init_muxer, write_packet_to_file, finalize_file_io}

unfoldable pub drain_live : Library → Option AvPacket → ℕ → Session → Session
unfolding analyze_packet write_packet_to_file
drain_live lib none size s = s
drain_live lib (some a) size s =
    let written =
      write_packet_to_file lib (some a)
        (record s { analyzer = analyze_packet (some a) s.analyzer }) in
    record written { local_written_bytes = add64 written.local_written_bytes size }

-- One packet of the pre-buffer goes to the file.
unfoldable pub drain_packet : Library → Packet → Session → Session
unfolding drain_live
drain_packet lib p s = drain_live lib p.pkt p.size s

-- The loop over the pre-buffer.
unfoldable pub drain : Library → List Packet → Session → Session
unfolding drain_packet
drain lib [] s = s
drain lib (p ∷ ps) s = drain lib ps (drain_packet lib p s)

abbrev or_stored : Option CodecParams → Option CodecParams → Option CodecParams
or_stored none old = old
or_stored (some c) old = some c

-- The fields that `start_event` sets before it opens the file.
unfoldable pub prepare : ℕ → AlarmEvent → Option CodecParams → StreamInfo → Session → Session
prepare now evt codec info s =
    let base = if info.valid then info.time_base else s.stored_time_base in
    record s {
      current_event_id = s.current_event_id +ℤ pos 1;
      current_event = some evt;
      stored_codec_params = or_stored codec s.stored_codec_params;
      stored_time_base = base;
      stored_frame_rate = if info.valid then info.frame_rate else s.stored_frame_rate;
      chunk_idx = pos 0;
      chunk_bytes = 0;
      event_start_time = now;
      analyzer = record fresh { time_base = base };
    }

unfoldable pub begin_event :
    Library → Moment → OpenReply → AlarmEvent → Option CodecParams → StreamInfo → Session → Session
unfolding prepare drain init_muxer
begin_event lib at r evt codec info s =
    let opened = init_muxer at.local r codec (prepare at.now evt codec info s) in
    record (drain lib s.pre.packets opened) { pre = PreBuffer.empty; state = recording }

abbrev pub is_active : State → Bool
is_active recording = true
is_active post_buffer = true
is_active finalizing = true
is_active _ = false

-- An event in progress is left to `continue_event`.
unfoldable pub start_event :
    Library → Moment → OpenReply → AlarmEvent → Option CodecParams → StreamInfo → Session → Session
unfolding begin_event
start_event lib at r evt codec info s =
    if is_active s.state then s else begin_event lib at r evt codec info s

unfoldable pub continue_in : State → AlarmEvent → Session → Session
continue_in idle evt s = s
continue_in pre_buffer evt s = s
continue_in finalizing evt s = record s { current_event = some evt }
continue_in post_buffer evt s = record s {
  post_packets = [];
  post_buffer_iframe_count = pos 0;
  state = recording;
  current_event = some evt;
}
continue_in recording evt s = record s { current_event = some evt }

unfoldable pub continue_event : AlarmEvent → Session → Session
unfolding continue_in
continue_event evt s = continue_in s.state evt s

unfoldable pub stop_in : State → Session → Session
stop_in recording s = record s {
  post_packets = [];
  post_buffer_iframe_count = pos 0;
  state = post_buffer;
}
stop_in idle s = s
stop_in pre_buffer s = s
stop_in post_buffer s = s
stop_in finalizing s = s

unfoldable pub stop_event : Session → Session
unfolding stop_in
stop_event s = stop_in s.state s

abbrev pub path_of : Option Muxer → Bytes → Bytes
path_of none name = []
path_of (some m) name = name

abbrev pub has_muxer : Option Muxer → Bool
has_muxer none = false
has_muxer (some m) = true

-- The first part of `force_stop` in an active state; the second resets the output.
unfoldable pub begin_force : Session → Session
begin_force s = record s {
  state = finalizing;
  pre = record s.pre { packets = []; iframe_count = pos 0 };
  post_packets = [];
  post_buffer_iframe_count = pos 0;
}

unfoldable pub end_force : Session → Session
end_force s = record s { out_fmt_ctx = none; out_stream = false; state = pre_buffer }

-- The callback runs whether or not the file could be finished.
unfoldable pub notify_forced : Bytes → Bool → Session → Session
notify_forced path callback s =
    if not (is_empty path) && callback then emit (notified path) s else s

unfoldable pub force_active : Bool → Session → Session
unfolding begin_force end_force notify_forced finalize_file_io
force_active trailer_ok s =
    let path = path_of s.out_fmt_ctx s.current_filename in
    notify_forced path (has_muxer s.out_fmt_ctx && s.cfg.on_video_save)
      (end_force (finalize_file_io path trailer_ok (begin_force s)).0)

unfoldable pub force_stop : Bool → Session → Session
unfolding force_active
force_stop trailer_ok s = if is_active s.state then force_active trailer_ok s else s

-- The first part of `shutdown`.
unfoldable pub halt : Session → Session
halt s = record s {
  shutdown_requested = true;
  pre = record s.pre { packets = [] };
  post_packets = [];
  state = idle;
  total_pushed_frames = s.local_pushed_frames;
  total_written_bytes = s.local_written_bytes;
}

unfoldable pub shutdown : Bool → Session → Session
unfolding halt finalize_file_io
shutdown trailer_ok s =
    let path = if is_active s.state then path_of s.out_fmt_ctx s.current_filename else [] in
    record (finalize_file_io path trailer_ok (halt s)).0 { out_fmt_ctx = none; out_stream = false }

-- `RecordingSession::Stats`
pub record Stats : Type 0 where
  pub state : State
  pub buffer_iframes : ℤ
  pub buffer_kb : ℕ
  pub total_pushed_frames : ℕ
  pub total_written_kb : ℕ
  pub detected_fps : Double
  pub current_file : Bytes

unfoldable pub get_stats : Library → Session → Stats
unfolding get_fps
get_stats lib s = record {
  state = s.state;
  buffer_iframes = s.pre.iframe_count;
  buffer_kb = s.pre.bytes / 1024;
  total_pushed_frames = s.total_pushed_frames;
  total_written_kb = s.total_written_bytes / 1024;
  detected_fps = get_fps lib.q2d s.analyzer;
  current_file = s.current_filename;
}
