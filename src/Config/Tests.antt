-- ===== src/Config/Tests.antt =====
-- A concrete template for the name of a recording, and the theorem at it.
use ivckolpak.Config.Address.{hex_address, dotted, hex_to_ip}
use ivckolpak.Config.Convert.{hex_to_ip-hex_address}
use ivckolpak.Prelude.{arith, ◌≡◌, refl, [], false, ◌≤◌, length, All, some}
use ivckolpak.Prelude.Int.{pos}
use ivckolpak.Prelude.Bytes.{codes, bytes_eq}
use ivckolpak.Prelude.Text.{decimal_ℤ}
use ivckolpak.Prelude.Double.{zero_double}
use ivckolpak.Alarm.Event.{AlarmEvent, blank}
use ivckolpak.Config.Types.{CameraConfig}
use ivckolpak.Config.Filename.{LocalTime, format_filename, format_filename_safe, IsAllowed}

abbrev gate : CameraConfig
gate = record {
  name = codes "Gate";
  description = [];
  serialid = codes "CAM:2";
  rtsp_url = codes "rtsp://10.0.0.8/";
  target_dir = codes "/rec";
  filename_format = [];
  on_event_start = [];
  on_event_stop = [];
  on_video_save = [];
  on_rtsp_lost = [];
  on_rtsp_found = [];
  pre_buffer_iframes = pos 2;
  post_buffer_iframes = pos 1;
  max_chunk_kbytes = pos 0;
  max_event_chunks = pos 5;
  reconnect_delay_ms = pos 3000;
  reconnect_max_delay_ms = pos 30000;
  max_chunk_duration_time_s = zero_double;
  max_event_total_duration_s = zero_double;
  rtsp_over_udp = false;
}

abbrev night : LocalTime
night = record {
  year = codes "2026";
  month = codes "01";
  day = codes "02";
  hour = codes "23";
  minute = codes "10";
  second = codes "00";
  time = codes "23:10:00";
}

abbrev motion : AlarmEvent
motion = record blank { event_type = codes "../x"; event_id = pos 4 }

expanded :
    format_filename night (codes "%{cam_id}/%Y-%T_%{json_event}_%e%") gate (pos 0) (some motion)
    ≡ codes "CAM_2_2026-23_10_00_.._x_4%"
unfolding format_filename bytes_eq decimal_ℤ
expanded = refl

format_filename_safe_example :
    All IsAllowed (format_filename night (codes "%{json_event}") gate (pos 0) (some motion))
    × (length (format_filename night (codes "%{json_event}") gate (pos 0) (some motion)) ≤ 255)
format_filename_safe_example =
    format_filename_safe night (codes "%{json_event}") gate (pos 0) (some motion)

hex_to_ip-hex_address_example : hex_to_ip (hex_address 0xc0a8010a) ≡ dotted 0xc0a8010a
hex_to_ip-hex_address_example = hex_to_ip-hex_address 0xc0a8010a (omega arith)
