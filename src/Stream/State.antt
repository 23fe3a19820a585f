-- ===== src/Stream/State.antt =====
-- rtsp_stream.hpp: the state of an `RTSPStream`, and the local variables of its thread.
use ivckolpak.Prelude.{ℕ, Bool, false, List, [], ◌∷◌, Option, none, if◌then◌else◌}
use ivckolpak.Prelude.Int.{ℤ, pos, negsuc, is_pos}
use ivckolpak.Prelude.Bytes.{Bytes}
use ivckolpak.Session.Packet.{AvPacket}
use ivckolpak.Session.Analyzer.{Rational}
use ivckolpak.Session.State.{CodecParams, StreamInfo}

-- `RTSPStream::Config`, as far as the thread reads it. The flags say whether a callback is set, and
-- whether there is a camera configuration.
pub record StreamConfig : Type 0 where
  pub reconnect_delay_ms : ℤ
  pub reconnect_max_delay_ms : ℤ
  pub max_reconnect_attempts : ℤ
  pub read_timeout_ms : ℤ
  pub on_rtsp_lost : Bytes
  pub on_rtsp_found : Bytes
  pub camera_config : Bool
  pub internal_lost_callback : Bool
  pub internal_found_callback : Bool

-- What the thread does to others, in its order: the callbacks, the scripts, the packets.
pub data Act : Type 0 where
  lost_callback found_callback lost_script found_script : Act
  packet : AvPacket → Act

-- The fields, and with them `reconnect_attempts`, `current_delay` and `was_connected` of `run`.
pub record Stream : Type 0 where
  pub cfg : StreamConfig
  pub alive : Bool
  pub fmt_ctx : Bool
  pub video_stream_idx : ℤ
  pub codec_params : Option CodecParams
  pub time_base : Rational
  pub frame_rate : Rational
  pub info_valid : Bool
  pub interrupt_flag : Bool
  pub last_packet_time_ms : ℕ
  pub watchdog_enabled : Bool
  pub total_bytes_read : ℕ
  pub reconnect_attempts : ℕ
  pub current_delay : ℤ
  pub was_connected : Bool
  pub acts : List Act

-- The constructor.
unfoldable pub new_stream : StreamConfig → Stream
new_stream c = record {
  cfg = record c {
    read_timeout_ms = if is_pos c.read_timeout_ms then c.read_timeout_ms else pos 10000;
  };
  alive = false;
  fmt_ctx = false;
  video_stream_idx = negsuc 0;
  codec_params = none;
  time_base = record { num = pos 1; den = pos 90000 };
  frame_rate = record { num = pos 0; den = pos 1 };
  info_valid = false;
  interrupt_flag = false;
  last_packet_time_ms = 0;
  watchdog_enabled = false;
  total_bytes_read = 0;
  reconnect_attempts = 0;
  current_delay = c.reconnect_delay_ms;
  was_connected = false;
  acts = [];
}

-- An act under a condition.
abbrev pub when : Bool → Act → List Act
when b a = if b then a ∷ [] else []

unfoldable pub get_stream_info : Stream → StreamInfo
get_stream_info s = record {
  time_base = s.time_base;
  frame_rate = s.frame_rate;
  valid = s.info_valid;
}
