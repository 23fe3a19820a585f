-- ===== src/Config/Load/File.antt =====
-- config.cpp `load_config`: the settings of a camera, the sections, and the whole file.
use ivckolpak.Prelude.{
  ℕ, ◌+◌, ◌-◌, not, ◌&&◌, ◌||◌, List, [], ◌∷◌, ◌++◌, Option, none, some, ◌==◌, if◌then◌else◌,
  length,
}
use ivckolpak.Prelude.Bytes.{Bytes, codes, bytes_eq, is_empty}
use ivckolpak.Prelude.Double.{Double}
use ivckolpak.Prelude.Text.{find, substr, stoi}
use ivckolpak.Config.Types.{GlobalConfig, CameraConfig, ParsedConfig}
use ivckolpak.Config.Load.{trim, iequals, merge_configs, default_global, no_camera, read_as, set_g}

-- The local variables; `cameras` also is what the repository gets, in this order.
pub record LoadState : Type 0 where
  pub global : GlobalConfig
  pub cameras : List CameraConfig
  pub sec : Bytes
  pub cur : CameraConfig

abbrev pub load_start : LoadState
load_start = record { global = default_global; cameras = []; sec = []; cur = no_camera }

-- How `load_config` fails: by an exception of a number, or by one of its own.
pub data LoadError : Type 0 where
  bad_number no_serialid no_rtsp : LoadError

pub data Loaded : Type 0 where
  parsed : ParsedConfig → Loaded
  error : LoadError → Loaded

-- At the end of a section: a camera with a serial number is merged and kept.
unfoldable pub end_camera : LoadState → LoadState
unfolding merge_configs
end_camera s =
    if bytes_eq s.sec (codes "camera") && not (is_empty s.cur.serialid)
    then record s { cameras = s.cameras ++ merge_configs s.global s.cur ∷ [] }
    else s

unfoldable pub with_camera : LoadState → Option CameraConfig → Option LoadState
with_camera s none = none
with_camera s (some c) = some (record s { cur = c })

unfoldable pub with_global : LoadState → Option GlobalConfig → Option LoadState
with_global s none = none
with_global s (some g) = some (record s { global = g })

-- `[name]` begins a section; the name is what stands between the first byte and the last.
unfoldable pub begin_section : Bytes → LoadState → LoadState
unfolding end_camera substr
begin_section line s = record (end_camera s) {
  sec = substr line 1 (length line - 2);
  cur = no_camera;
}

-- The first camera that lacks a required field.
unfoldable pub check_cameras : List CameraConfig → Option LoadError
check_cameras [] = none
check_cameras (c ∷ cs) =
    if is_empty c.serialid
    then some no_serialid
    else if is_empty c.rtsp_url
    then some no_rtsp
    else check_cameras cs

unfoldable pub checked : ParsedConfig → Option LoadError → Loaded
checked p none = parsed p
checked p (some e) = error e

unfoldable pub finished : Option LoadState → Loaded
unfolding end_camera check_cameras checked
finished none = error bad_number
finished (some s) =
    checked (record { global = s.global; cameras = (end_camera s).cameras })
      (check_cameras (end_camera s).cameras)

-- An exception ends the reading.
unfoldable pub and_then : Option LoadState → (LoadState → Option LoadState) → Option LoadState
and_then none more = none
and_then (some s) more = more s

-- `std::stod` is the library's; none where it throws.
module _ (stod : Bytes → Option Double) where
  -- `set_c`; none where a number cannot be read.
  unfoldable pub set_c : Bytes → Bytes → CameraConfig → Option CameraConfig
  unfolding stoi iequals
  set_c k v c =
      if bytes_eq k (codes "name")
      then some (record c { name = v })
      else if bytes_eq k (codes "description")
      then some (record c { description = v })
      else if bytes_eq k (codes "serialid")
      then some (record c { serialid = v })
      else if bytes_eq k (codes "rtsp")
      then some (record c { rtsp_url = v })
      else if bytes_eq k (codes "max_chunk_duration_time_s")
      then read_as (stod v) (λ d. record c { max_chunk_duration_time_s = d })
      else if bytes_eq k (codes "max_event_total_duration_s")
      then read_as (stod v) (λ d. record c { max_event_total_duration_s = d })
      else if bytes_eq k (codes "max_event_chunks")
      then read_as (stoi v) (λ n. record c { max_event_chunks = n })
      else if bytes_eq k (codes "max_chunk_kbytes")
      then read_as (stoi v) (λ n. record c { max_chunk_kbytes = n })
      else if bytes_eq k (codes "pre_buffer_iframes")
      then read_as (stoi v) (λ n. record c { pre_buffer_iframes = n })
      else if bytes_eq k (codes "post_buffer_iframes")
      then read_as (stoi v) (λ n. record c { post_buffer_iframes = n })
      else if bytes_eq k (codes "target_dir")
      then some (record c { target_dir = v })
      else if bytes_eq k (codes "filename_format")
      then some (record c { filename_format = v })
      else if bytes_eq k (codes "on_event_start")
      then some (record c { on_event_start = v })
      else if bytes_eq k (codes "on_event_stop")
      then some (record c { on_event_stop = v })
      else if bytes_eq k (codes "on_video_save")
      then some (record c { on_video_save = v })
      else if bytes_eq k (codes "on_rtsp_lost")
      then some (record c { on_rtsp_lost = v })
      else if bytes_eq k (codes "on_rtsp_found")
      then some (record c { on_rtsp_found = v })
      else if bytes_eq k (codes "reconnect_delay_ms")
      then read_as (stoi v) (λ n. record c { reconnect_delay_ms = n })
      else if bytes_eq k (codes "reconnect_max_delay_ms")
      then read_as (stoi v) (λ n. record c { reconnect_max_delay_ms = n })
      else if bytes_eq k (codes "rtsp_over_udp")
      then some (record c {
        rtsp_over_udp =
            bytes_eq v (codes "on") || (bytes_eq v (codes "1") || iequals v (codes "true"));
      })
      else some c

  -- A setting goes to the section that it stands in.
  unfoldable pub set_in : Bytes → Bytes → LoadState → Option LoadState
  unfolding set_g set_c with_camera with_global stoi
  set_in k v s =
      if bytes_eq s.sec (codes "global")
      then with_global s (set_g stod k v s.global)
      else if bytes_eq s.sec (codes "camera")
      then with_camera s (set_c k v s.cur)
      else if bytes_eq s.sec (codes "alarm_server") && bytes_eq k (codes "listen_port")
      then with_global s (read_as (stoi v) (λ n. record s.global { alarm_server_port = n }))
      else some s

  -- A line without `=` is passed over.
  unfoldable pub setting_at : Bytes → LoadState → Option ℕ → Option LoadState
  unfolding set_in trim substr
  setting_at line s none = some s
  setting_at line s (some eq) =
      set_in (trim (substr line 0 eq)) (trim (substr line (eq + 1) (length line))) s

  unfoldable pub read_setting : Bytes → LoadState → Option LoadState
  unfolding setting_at find
  read_setting line s = setting_at line s (find b'=' line 0)

  -- A trimmed line, by its first byte.
  unfoldable pub read_trimmed : Bytes → LoadState → Option LoadState
  unfolding begin_section read_setting
  read_trimmed [] s = some s
  read_trimmed (c ∷ cs) s =
      if c == b'#' || c == b';'
      then some s
      else if c == b'['
      then some (begin_section (c ∷ cs) s)
      else read_setting (c ∷ cs) s

  -- The loop over the lines.
  unfoldable pub read_lines : List Bytes → LoadState → Option LoadState
  unfolding read_trimmed trim and_then
  read_lines [] s = some s
  read_lines (line ∷ lines) s = and_then (read_trimmed (trim line) s) (read_lines lines)

  -- `load_config` on the lines of a file that can be opened.
  unfoldable pub load_config : List Bytes → Loaded
  unfolding read_lines finished
  load_config lines = finished (read_lines lines load_start)
