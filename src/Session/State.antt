-- ===== src/Session/State.antt =====
-- recording_session.hpp: the state of a `RecordingSession`, and what its calls of FFmpeg return.
use ivckolpak.Prelude.{ℕ, List, [], ◌∷◌, ◌++◌, Bool, false, Option, none}
use ivckolpak.Prelude.Int.{ℤ, pos}
use ivckolpak.Prelude.Bytes.{Bytes}
use ivckolpak.Prelude.Double.{Double, FloatOps}
use ivckolpak.Alarm.Event.{AlarmEvent}
use ivckolpak.Config.Types.{CameraConfig}
use ivckolpak.Config.Filename.{LocalTime}
use ivckolpak.Session.Packet.{AvPacket, Packet, nopts}
use ivckolpak.Session.PreBuffer.{PreBuffer}
use ivckolpak.Session.PreBuffer
use ivckolpak.Session.Analyzer.{Rational, StreamAnalyzer, fresh}

pub data State : Type 0 where
  idle pre_buffer recording finalizing post_buffer : State

pub State-discrete : Discrete State
State-discrete = hlevel

-- `RecordingSession::Config`; `on_video_save` says whether a callback is set.
pub record SessionConfig : Type 0 where
  pub camera_cfg : CameraConfig
  pub pre_buffer_iframes : ℤ
  pub post_buffer_iframes : ℤ
  pub on_video_save : Bool

-- `AVCodecParameters`, which the program only copies.
abbrev pub CodecParams : Type 0
CodecParams = ℕ

-- `RTSPStream::StreamInfo`
pub record StreamInfo : Type 0 where
  pub time_base : Rational
  pub frame_rate : Rational
  pub valid : Bool

-- An open `AVFormatContext` with its one stream: the file that it writes, whether `pb` is open,
-- and the stream's fields.
pub record Muxer : Type 0 where
  pub path : Bytes
  pub has_pb : Bool
  pub codecpar : CodecParams
  pub time_base : Rational
  pub avg_frame_rate : Rational

-- What the session does to the world, in its order.
pub data Effect : Type 0 where
  opened : Bytes → Effect
  wrote : Bytes → AvPacket → Effect
  dropped : AvPacket → Effect
  trailed : Bytes → Effect
  closed : Bytes → Effect
  removed : Bytes → Effect
  notified : Bytes → Effect

pub record Session : Type 0 where
  pub cfg : SessionConfig
  pub state : State
  pub pre : PreBuffer
  pub post_packets : List Packet
  pub post_buffer_iframe_count : ℤ
  pub out_fmt_ctx : Option Muxer
  pub out_stream : Bool
  pub current_filename : Bytes
  pub current_event_id : ℤ
  pub current_event : Option AlarmEvent
  pub analyzer : StreamAnalyzer
  pub stored_codec_params : Option CodecParams
  pub stored_time_base : Rational
  pub stored_frame_rate : Rational
  pub chunk_idx : ℤ
  pub chunk_bytes : ℕ
  pub chunk_start_pts : ℤ
  pub event_start_time : ℕ
  pub local_pushed_frames : ℕ
  pub local_written_bytes : ℕ
  pub total_pushed_frames : ℕ
  pub total_written_bytes : ℕ
  pub shutdown_requested : Bool
  pub effects : List Effect

-- The constructor.
unfoldable pub new_session : SessionConfig → Session
new_session cfg = record {
  cfg = cfg;
  state = pre_buffer;
  pre = PreBuffer.empty;
  post_packets = [];
  post_buffer_iframe_count = pos 0;
  out_fmt_ctx = none;
  out_stream = false;
  current_filename = [];
  current_event_id = pos 0;
  current_event = none;
  analyzer = fresh;
  stored_codec_params = none;
  stored_time_base = record { num = pos 1; den = pos 90000 };
  stored_frame_rate = record { num = pos 25; den = pos 1 };
  chunk_idx = pos 0;
  chunk_bytes = 0;
  chunk_start_pts = nopts;
  event_start_time = 0;
  local_pushed_frames = 0;
  local_written_bytes = 0;
  total_pushed_frames = 0;
  total_written_bytes = 0;
  shutdown_requested = false;
  effects = [];
}

abbrev pub emit : Effect → Session → Session
emit e s = record s { effects = s.effects ++ e ∷ [] }

-- The functions of FFmpeg and of the clock that compute values: `av_packet_rescale_ts`, `av_q2d`,
-- arithmetic on doubles, and the seconds from one reading of the steady clock to another.
pub record Library : Type 0 where
  pub rescale_ts : AvPacket → Rational → Rational → AvPacket
  pub q2d : Rational → Double
  pub ops : FloatOps
  pub seconds : ℕ → ℕ → Double

-- What the calls in one run of `init_muxer` return, and the time base that the header leaves.
pub record OpenReply : Type 0 where
  pub alloc_ok : Bool
  pub open_ok : Bool
  pub stream_ok : Bool
  pub header_ok : Bool
  pub time_base : Rational

-- The clocks at a call.
pub record Moment : Type 0 where
  pub now : ℕ
  pub local : LocalTime

-- What `finalize_and_rotate` meets: whether `av_write_trailer` succeeds, and a new file.
pub record RotateReply : Type 0 where
  pub trailer_ok : Bool
  pub reopen : OpenReply
  pub moment : Moment
