-- ===== src/Samples.antt =====
-- Two cameras, and what the calls of the libraries return: data for the tests.
use ivckolpak.Prelude.{ℕ, true, false, [], ◌∷◌, some}
use ivckolpak.Prelude.Int.{pos}
use ivckolpak.Prelude.Bytes.{codes}
use ivckolpak.Prelude.Double.{zero_double, FloatOps}
use ivckolpak.Alarm.Event.{AlarmEvent, blank}
use ivckolpak.Config.Types.{CameraConfig, GlobalConfig, ParsedConfig}
use ivckolpak.Config.Filename.{LocalTime}
use ivckolpak.Session.State.{Library, OpenReply}
use ivckolpak.Node.{StreamView}
use ivckolpak.Manager.{Meets}

-- 60.0 and 30.0 as doubles.
abbrev pub sixty : ℕ
sixty = 0x404e_0000_0000_0000

abbrev pub half_minute : ℕ
half_minute = 0x403e_0000_0000_0000

abbrev pub global : GlobalConfig
global = record {
  pre_buffer_iframes = pos 2;
  post_buffer_iframes = pos 2;
  max_chunk_kbytes = pos 51200;
  max_event_chunks = pos 5;
  reconnect_delay_ms = pos 3000;
  reconnect_max_delay_ms = pos 30000;
  alarm_server_port = pos 15002;
  max_chunk_duration_time_s = zero_double;
  max_event_total_duration_s = sixty;
  stats_every_sec = pos 0;
  target_dir = codes "/rec";
  filename_format = codes "%v.mp4";
  on_event_start = [];
  on_event_stop = [];
  on_video_save = [];
  on_rtsp_lost = [];
  on_rtsp_found = [];
  disable_logs = false;
}

abbrev pub yard : CameraConfig
yard = record {
  name = codes "Yard";
  description = [];
  serialid = codes "S1";
  rtsp_url = codes "rtsp://10.0.0.7/";
  target_dir = codes "/rec";
  filename_format = codes "%v.mp4";
  on_event_start = codes "start";
  on_event_stop = [];
  on_video_save = [];
  on_rtsp_lost = [];
  on_rtsp_found = [];
  pre_buffer_iframes = pos 2;
  post_buffer_iframes = pos 1;
  max_chunk_kbytes = pos 0;
  max_event_chunks = pos 5;
  reconnect_delay_ms = pos 3000;
  reconnect_max_delay_ms = pos 30000;
  max_chunk_duration_time_s = zero_double;
  max_event_total_duration_s = half_minute;
  rtsp_over_udp = false;
}

abbrev pub roof : CameraConfig
roof = record yard { serialid = codes "S2"; rtsp_url = codes "rtsp://10.0.0.8/" }

abbrev pub parsed : ParsedConfig
parsed = record { global = global; cameras = yard ∷ roof ∷ [] }

abbrev pub noon : LocalTime
noon = record {
  year = codes "2026";
  month = codes "01";
  day = codes "02";
  hour = codes "12";
  minute = codes "00";
  second = codes "00";
  time = codes "12:00:00";
}

abbrev pub ops : FloatOps
ops = record {
  sub = λ x y. x;
  mul = λ x y. x;
  div = λ x y. x;
  abs = λ x. x;
  of_int = λ x. 0;
  to_int = λ x. pos 0;
}

-- Between any two readings of the clock a minute passes.
abbrev pub lib : Library
lib = record { rescale_ts = λ p a b. p; q2d = λ r. 0; ops = ops; seconds = λ a b. sixty }

abbrev pub works : OpenReply
works = record {
  alloc_ok = true;
  open_ok = true;
  stream_ok = true;
  header_ok = true;
  time_base = record { num = pos 1; den = pos 90000 };
}

abbrev pub live : StreamView
live = record {
  is_alive = true;
  codec_params = some 7;
  info = record {
    time_base = record { num = pos 1; den = pos 90000 };
    frame_rate = record { num = pos 25; den = pos 1 };
    valid = true;
  };
}

abbrev pub meets : Meets
meets = record { lib = lib; at = record { now = 60; local = noon }; reply = works; view = live }

abbrev pub alarm : AlarmEvent
alarm = record blank { serial_id = codes "S1"; status = codes "Start"; type = codes "Alarm" }
