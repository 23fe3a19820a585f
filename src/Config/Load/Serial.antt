-- ===== src/Config/Load/Serial.antt =====
-- config.cpp: the serial numbers of the cameras that `load_config` keeps.
use ivckolpak.Prelude.{
  ℕ, ◌+◌, ◌≡◌, ◌≢◌, refl, Bool, true, false, not, ◌&&◌, ◌||◌, List, [], ◌∷◌, Option, none, some,
  ◌==◌, arith, if◌then◌else◌, Bool-cases, inl, inr, length, All, All-append,
}
use ivckolpak.Prelude.Bytes.{Bytes, codes, bytes_eq, is_empty}
use ivckolpak.Prelude.Double.{Double}
use ivckolpak.Prelude.Text.{find, substr}
use ivckolpak.Config.Types.{GlobalConfig, CameraConfig, ParsedConfig}
use ivckolpak.Config.Load.{trim, merge_configs}
use ivckolpak.Config.Load.File.{
  LoadState, load_start, LoadError, no_serialid, no_rtsp, bad_number, error, end_camera,
  with_camera, with_global, and_then, set_in, setting_at, read_setting, begin_section, read_trimmed,
  read_lines, check_cameras, checked, finished, load_config,
}

abbrev HasSerial : CameraConfig → Type 0
HasSerial c = is_empty c.serialid ≡ false

abbrev Named : LoadState → Type 0
Named s = All HasSerial s.cameras

abbrev Every : Option LoadState → Type 0
Every none = Unit
Every (some s) = Named s

choose-Every : (b : Bool) (x y : Option LoadState) → Every x → Every y → Every (if b then x else y)
choose-Every true x y h k = h
choose-Every false x y h k = k

end_named : (b c : Bool) → b && not c ≡ true → c ≡ false
end_named true true h = ground (arith, h)
end_named true false h = refl
end_named false c h = ground (arith, h)

merge-HasSerial :
    (g : GlobalConfig) (c : CameraConfig) → HasSerial c → HasSerial (merge_configs g c)
unfolding merge_configs
merge-HasSerial g c h = h

end_camera-Named : (s : LoadState) → Named s → Named (end_camera s)
unfolding end_camera
end_camera-Named s h =
    elim (Bool-cases (bytes_eq s.sec (codes "camera") && not (is_empty s.cur.serialid))) [
      | inl e ↦ simp e (
          All-append HasSerial s.cameras (merge_configs s.global s.cur ∷ []) h
            (merge-HasSerial s.global s.cur (end_named _ _ e), tt))
      | inr e ↦ simp e h
    ]

with_camera-Every : (s : LoadState) (o : Option CameraConfig) → Named s → Every (with_camera s o)
unfolding with_camera
with_camera-Every s none h = tt
with_camera-Every s (some c) h = h

with_global-Every : (s : LoadState) (o : Option GlobalConfig) → Named s → Every (with_global s o)
unfolding with_global
with_global-Every s none h = tt
with_global-Every s (some g) h = h

begin_section-Named : (line : Bytes) (s : LoadState) → Named s → Named (begin_section line s)
unfolding begin_section
begin_section-Named line s h = end_camera-Named s h

and_then-Every :
    (o : Option LoadState) (more : LoadState → Option LoadState)
    → Every o
    → ((s : LoadState) → Named s → Every (more s))
    → Every (and_then o more)
unfolding and_then
and_then-Every none more h f = tt
and_then-Every (some s) more h f = f s h

module _ (stod : Bytes → Option Double) where
  set_in-Every : (k v : Bytes) (s : LoadState) → Named s → Every (set_in stod k v s)
  unfolding set_in
  set_in-Every k v s h =
      choose-Every (bytes_eq s.sec (codes "global")) _ _ (with_global-Every s _ h) (
        choose-Every (bytes_eq s.sec (codes "camera")) _ _ (with_camera-Every s _ h) (
          choose-Every (bytes_eq s.sec (codes "alarm_server") && bytes_eq k (codes "listen_port")) _
            (some s) (with_global-Every s _ h) h))

  setting_at-Every :
      (line : Bytes) (s : LoadState) (o : Option ℕ) → Named s → Every (setting_at stod line s o)
  unfolding setting_at
  setting_at-Every line s none h = h
  setting_at-Every line s (some eq) h =
      set_in-Every (trim (substr line 0 eq)) (trim (substr line (eq + 1) (length line))) s h

  read_setting-Every : (line : Bytes) (s : LoadState) → Named s → Every (read_setting stod line s)
  unfolding read_setting
  read_setting-Every line s h = setting_at-Every line s (find b'=' line 0) h

  read_trimmed-Every : (line : Bytes) (s : LoadState) → Named s → Every (read_trimmed stod line s)
  unfolding read_trimmed
  read_trimmed-Every [] s h = h
  read_trimmed-Every (c ∷ cs) s h = choose-Every (c == b'#' || c == b';') (some s) _ h (
      choose-Every (c == b'[') (some (begin_section (c ∷ cs) s)) (read_setting stod (c ∷ cs) s)
        (begin_section-Named (c ∷ cs) s h) (read_setting-Every (c ∷ cs) s h))

  read_lines-Every :
      (lines : List Bytes) (s : LoadState) → Named s → Every (read_lines stod lines s)
  unfolding read_lines
  read_lines-Every [] s h = h
  read_lines-Every (line ∷ lines) s h =
      and_then-Every (read_trimmed stod (trim line) s) (read_lines stod lines)
        (read_trimmed-Every (trim line) s h) (λ t k. read_lines-Every lines t k)

check_cameras-HasSerial :
    (cs : List CameraConfig) → All HasSerial cs → check_cameras cs ≢ some no_serialid
unfolding check_cameras
check_cameras-HasSerial [] h e = ground (arith, e)
check_cameras-HasSerial (c ∷ cs) h e = ground (arith, h.0, e, check_cameras-HasSerial cs h.1)

checked-no_serialid :
    (p : ParsedConfig) (o : Option LoadError)
    → o ≢ some no_serialid
    → checked p o ≢ error no_serialid
unfolding checked
checked-no_serialid p none h e = ground (arith, e)
checked-no_serialid p (some bad_number) h e = ground (arith, e)
checked-no_serialid p (some no_rtsp) h e = ground (arith, e)
checked-no_serialid p (some no_serialid) h e = h refl

finished-no_serialid : (o : Option LoadState) → Every o → finished o ≢ error no_serialid
unfolding finished
finished-no_serialid none h e = ground (arith, e)
finished-no_serialid (some s) h e =
    checked-no_serialid _ (check_cameras (end_camera s).cameras)
      (check_cameras-HasSerial (end_camera s).cameras (end_camera-Named s h)) e

-- `load_config` never reports a camera without `serialid`, whatever the file holds: a camera section that
-- has none is passed over before the test for it is made.
pub load_config-no_serialid :
    (stod : Bytes → Option Double) (lines : List Bytes) → load_config stod lines ≢ error no_serialid
unfolding load_config
load_config-no_serialid stod lines =
    finished-no_serialid (read_lines stod lines load_start)
      (read_lines-Every stod lines load_start tt)
