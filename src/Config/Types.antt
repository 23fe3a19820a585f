-- ===== src/Config/Types.antt =====
-- config.h: the records of a parsed configuration.
use ivckolpak.Prelude.{List, Bool}
use ivckolpak.Prelude.Int.{ℤ}
use ivckolpak.Prelude.Bytes.{Bytes}
use ivckolpak.Prelude.Double.{Double}

pub record GlobalConfig : Type 0 where
  pub pre_buffer_iframes : ℤ
  pub post_buffer_iframes : ℤ
  pub max_chunk_kbytes : ℤ
  pub max_event_chunks : ℤ
  pub reconnect_delay_ms : ℤ
  pub reconnect_max_delay_ms : ℤ
  pub alarm_server_port : ℤ
  pub max_chunk_duration_time_s : Double
  pub max_event_total_duration_s : Double
  pub stats_every_sec : ℤ
  pub target_dir : Bytes
  pub filename_format : Bytes
  pub on_event_start : Bytes
  pub on_event_stop : Bytes
  pub on_video_save : Bytes
  pub on_rtsp_lost : Bytes
  pub on_rtsp_found : Bytes
  pub disable_logs : Bool

pub record CameraConfig : Type 0 where
  pub name : Bytes
  pub description : Bytes
  pub serialid : Bytes
  pub rtsp_url : Bytes
  pub target_dir : Bytes
  pub filename_format : Bytes
  pub on_event_start : Bytes
  pub on_event_stop : Bytes
  pub on_video_save : Bytes
  pub on_rtsp_lost : Bytes
  pub on_rtsp_found : Bytes
  pub pre_buffer_iframes : ℤ
  pub post_buffer_iframes : ℤ
  pub max_chunk_kbytes : ℤ
  pub max_event_chunks : ℤ
  pub reconnect_delay_ms : ℤ
  pub reconnect_max_delay_ms : ℤ
  pub max_chunk_duration_time_s : Double
  pub max_event_total_duration_s : Double
  pub rtsp_over_udp : Bool

pub record ParsedConfig : Type 0 where
  pub global : GlobalConfig
  pub cameras : List CameraConfig
