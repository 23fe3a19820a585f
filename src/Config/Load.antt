-- ===== src/Config/Load.antt =====
-- config.cpp `load_config`: the configuration file, line by line.
pub mod File
pub mod Serial
mod Tests
use ivckolpak.Prelude.{
  ℕ, ◌+◌, ◌-◌, ◌≡◌, refl, Bool, true, false, not, ◌&&◌, ◌||◌, List, [], ◌∷◌, ◌++◌, map, Option,
  none, some, ◌==◌, if◌then◌else◌, length, take, drop,
}
use ivckolpak.Prelude.Int.{ℤ, pos, eqb_ℤ}
use ivckolpak.Prelude.Bytes.{Bytes, codes, bytes_eq, is_empty, to_lower}
use ivckolpak.Prelude.Double.{Double, is_zero_double, zero_double}
use ivckolpak.Prelude.Text.{find, substr, stoi}
use ivckolpak.Config.Types.{GlobalConfig, CameraConfig, ParsedConfig}

abbrev is_blank : ℕ → Bool
is_blank c = c == b' ' || (c == b'\t' || (c == b'\r' || c == b'\n'))

-- The blanks behind the text go.
trim_end : Bytes → Bytes
trim_end [] = []
trim_end (c ∷ cs) = let rest = trim_end cs in if is_blank c && is_empty rest then [] else c ∷ rest

unfoldable pub trim : Bytes → Bytes
unfolding trim_end
trim [] = []
trim (c ∷ cs) = let rest = trim cs in if is_blank c then rest else trim_end (c ∷ cs)

unfoldable pub iequals : Bytes → Bytes → Bool
iequals a b = bytes_eq (map to_lower a) (map to_lower b)

abbrev merge_str : Bytes → Bytes → Bytes
merge_str own global = if is_empty own then global else own

abbrev merge_int : ℤ → ℤ → ℤ
merge_int own global = if eqb_ℤ own (pos 0) then global else own

abbrev merge_dbl : Double → Double → Double
merge_dbl own global = if is_zero_double own then global else own

unfoldable pub merge_configs : GlobalConfig → CameraConfig → CameraConfig
merge_configs g c = record c {
  target_dir = merge_str c.target_dir g.target_dir;
  filename_format = merge_str c.filename_format g.filename_format;
  on_event_start = merge_str c.on_event_start g.on_event_start;
  on_event_stop = merge_str c.on_event_stop g.on_event_stop;
  on_video_save = merge_str c.on_video_save g.on_video_save;
  on_rtsp_lost = merge_str c.on_rtsp_lost g.on_rtsp_lost;
  on_rtsp_found = merge_str c.on_rtsp_found g.on_rtsp_found;
  pre_buffer_iframes = merge_int c.pre_buffer_iframes g.pre_buffer_iframes;
  post_buffer_iframes = merge_int c.post_buffer_iframes g.post_buffer_iframes;
  max_chunk_duration_time_s = merge_dbl c.max_chunk_duration_time_s g.max_chunk_duration_time_s;
  max_event_total_duration_s = merge_dbl c.max_event_total_duration_s g.max_event_total_duration_s;
  max_event_chunks = merge_int c.max_event_chunks g.max_event_chunks;
  max_chunk_kbytes = merge_int c.max_chunk_kbytes g.max_chunk_kbytes;
  reconnect_delay_ms = merge_int c.reconnect_delay_ms g.reconnect_delay_ms;
  reconnect_max_delay_ms = merge_int c.reconnect_max_delay_ms g.reconnect_max_delay_ms;
}

-- `GlobalConfig{}`
abbrev pub default_global : GlobalConfig
default_global = record {
  pre_buffer_iframes = pos 3;
  post_buffer_iframes = pos 2;
  max_chunk_kbytes = pos 51200;
  max_event_chunks = pos 5;
  reconnect_delay_ms = pos 3000;
  reconnect_max_delay_ms = pos 30000;
  alarm_server_port = pos 15002;
  max_chunk_duration_time_s = 0x403e_0000_0000_0000;
  max_event_total_duration_s = 0x4062_c000_0000_0000;
  stats_every_sec = pos 2;
  target_dir = codes "/mnt/recordings";
  filename_format = codes "rec_%{cam_id}_%Y%m%d_%T_v%v_%e.mp4";
  on_event_start = [];
  on_event_stop = [];
  on_video_save = [];
  on_rtsp_lost = [];
  on_rtsp_found = [];
  disable_logs = false;
}

-- `CameraConfig{}`
abbrev pub no_camera : CameraConfig
no_camera = record {
  name = [];
  description = [];
  serialid = [];
  rtsp_url = [];
  target_dir = [];
  filename_format = [];
  on_event_start = [];
  on_event_stop = [];
  on_video_save = [];
  on_rtsp_lost = [];
  on_rtsp_found = [];
  pre_buffer_iframes = pos 0;
  post_buffer_iframes = pos 0;
  max_chunk_kbytes = pos 0;
  max_event_chunks = pos 0;
  reconnect_delay_ms = pos 0;
  reconnect_max_delay_ms = pos 0;
  max_chunk_duration_time_s = zero_double;
  max_event_total_duration_s = zero_double;
  rtsp_over_udp = false;
}

-- A number that is read into a field; none where it is none.
abbrev read_as : {N C : Type 0} → Option N → (N → C) → Option C
read_as none f = none
read_as (some n) f = some (f n)

-- `std::stod` is the library's; none where it throws.
module _ (stod : Bytes → Option Double) where
  -- `set_g`; none where a number cannot be read.
  unfoldable pub set_g : Bytes → Bytes → GlobalConfig → Option GlobalConfig
  unfolding stoi iequals
  set_g k v g =
      if bytes_eq k (codes "pre_buffer_iframes")
      then read_as (stoi v) (λ n. record g { pre_buffer_iframes = n })
      else if bytes_eq k (codes "post_buffer_iframes")
      then read_as (stoi v) (λ n. record g { post_buffer_iframes = n })
      else if bytes_eq k (codes "max_chunk_duration_time_s")
      then read_as (stod v) (λ d. record g { max_chunk_duration_time_s = d })
      else if bytes_eq k (codes "max_event_total_duration_s")
      then read_as (stod v) (λ d. record g { max_event_total_duration_s = d })
      else if bytes_eq k (codes "max_event_chunks")
      then read_as (stoi v) (λ n. record g { max_event_chunks = n })
      else if bytes_eq k (codes "max_chunk_kbytes")
      then read_as (stoi v) (λ n. record g { max_chunk_kbytes = n })
      else if bytes_eq k (codes "target_dir")
      then some (record g { target_dir = v })
      else if bytes_eq k (codes "filename_format")
      then some (record g { filename_format = v })
      else if bytes_eq k (codes "on_event_start")
      then some (record g { on_event_start = v })
      else if bytes_eq k (codes "on_event_stop")
      then some (record g { on_event_stop = v })
      else if bytes_eq k (codes "on_video_save")
      then some (record g { on_video_save = v })
      else if bytes_eq k (codes "on_rtsp_lost")
      then some (record g { on_rtsp_lost = v })
      else if bytes_eq k (codes "on_rtsp_found")
      then some (record g { on_rtsp_found = v })
      else if bytes_eq k (codes "reconnect_delay_ms")
      then read_as (stoi v) (λ n. record g { reconnect_delay_ms = n })
      else if bytes_eq k (codes "reconnect_max_delay_ms")
      then read_as (stoi v) (λ n. record g { reconnect_max_delay_ms = n })
      else if bytes_eq k (codes "disable_logs")
      then some (record g {
        disable_logs =
            bytes_eq v (codes "yes")
            || (bytes_eq v (codes "true") || (bytes_eq v (codes "1") || iequals v (codes "on")));
      })
      else some g
