-- ===== src/Script.antt =====
-- utils.hpp `execute_script_async`: the macros of a command.
pub mod Plain
pub mod Macros
pub mod Clashes
pub mod Replace
pub mod Template
mod Tests
use ivckolpak.Prelude.{
  ℕ, zero, suc, ◌-◌, ◌≡◌, refl, Bool, true, false, List, [], ◌∷◌, ◌++◌, Option, none, some,
  if◌then◌else◌, length,
}
use ivckolpak.Prelude.Bytes.{Bytes, codes, is_empty}
use ivckolpak.Prelude.Text.{starts_with, decimal_ℤ}
use ivckolpak.Alarm.Event.{AlarmEvent}
use ivckolpak.Config.Types.{CameraConfig}
use ivckolpak.Config.Address.{extract_ip_hex_from_rtsp}
use ivckolpak.Config.Filename.{LocalTime}

-- The loop of `rep`: every occurrence of `t`, which is not empty, becomes `v`; the number is how many
-- bytes the last occurrence still takes up.
unfoldable pub rep_from : Bytes → Bytes → ℕ → Bytes → Bytes
unfolding starts_with
rep_from t v skip [] = []
rep_from t v (suc skip) (c ∷ cs) = rep_from t v skip cs
rep_from t v zero (c ∷ cs) = elim (starts_with t (c ∷ cs)) [
  | true ↦ v ++ rep_from t v (length t - 1) cs
  | false ↦ c ∷ rep_from t v zero cs
]

unfoldable pub rep : Bytes → Bytes → Bytes → Bytes
unfolding rep_from
rep t v r = rep_from t v zero r

-- The macros of an alarm.
unfoldable pub rep_event : Option AlarmEvent → Bytes → Bytes
unfolding rep decimal_ℤ
rep_event none r = r
rep_event (some evt) r = rep (codes "%{json_alarm}") evt.alarm_type (
    rep (codes "%{json_status}") evt.status (
      rep (codes "%{json_starttime}") evt.start_time (
        rep (codes "%{json_serialid}") evt.serial_id (
          rep (codes "%{json_event}") evt.event_type (
            rep (codes "%{json_desc}") evt.description (
              rep (codes "%{json_chan}") (decimal_ℤ evt.channel)
                (rep (codes "%{json_addr}") evt.address r)))))))

unfoldable pub rep_camera : CameraConfig → Bytes → Bytes
unfolding rep extract_ip_hex_from_rtsp
rep_camera cfg r =
    rep (codes "%{cam_ip}") (extract_ip_hex_from_rtsp cfg.rtsp_url)
      (rep (codes "%{cam_id}") cfg.serialid (rep (codes "%{cam_name}") cfg.name r))

unfoldable pub rep_time : LocalTime → Bytes → Bytes
unfolding rep
rep_time now r = rep (codes "%T") now.time (
    rep (codes "%S") now.second (
      rep (codes "%M") now.minute (
        rep (codes "%H") now.hour
          (rep (codes "%d") now.day (rep (codes "%m") now.month (rep (codes "%Y") now.year r))))))

-- The command that goes to the executor; none where there is no command.
unfoldable pub execute_script_async :
    LocalTime → Bytes → CameraConfig → Option AlarmEvent → Bytes → Option Bytes
unfolding rep rep_event rep_camera rep_time
execute_script_async now cmd cfg evt fp =
    if is_empty cmd
    then none
    else some (rep (codes "%f") fp (rep_event evt (rep_camera cfg (rep_time now cmd))))
