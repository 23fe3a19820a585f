-- ===== src/Script/Tests.antt =====
-- Commands with macros and without, and the theorem at one.
use ivckolpak.Prelude.{◌≡◌, refl, List, [], ◌∷◌, none, some, All, arith}
use ivckolpak.Prelude.Int.{pos}
use ivckolpak.Prelude.Bytes.{codes}
use ivckolpak.Alarm.Event.{AlarmEvent, blank}
use ivckolpak.Config.Types.{CameraConfig}
use ivckolpak.Config.Load.{no_camera}
use ivckolpak.Config.Filename.{LocalTime}
use ivckolpak.Script.{execute_script_async}
use ivckolpak.Script.Plain.{IsPlain, is_plain, is_plain-lem, are_plain, are_plain-lem}
use ivckolpak.Script.Macros.{Piece, literal, macro, IsPiece, shown, spelling, nth, values}
use ivckolpak.Script.Template.{execute_script_async-shown}
use ivckolpak.Config.Address.{extract_ip_hex_from_rtsp}
use ivckolpak.Prelude.Text.{decimal_ℤ}

abbrev noon : LocalTime
noon = record {
  year = codes "2026";
  month = codes "01";
  day = codes "02";
  hour = codes "12";
  minute = codes "00";
  second = codes "00";
  time = codes "12:00:00";
}

abbrev gate : CameraConfig
gate = record no_camera { name = codes "Gate"; serialid = codes "S1" }

abbrev motion : AlarmEvent
motion = record blank { description = codes "x; reboot"; channel = pos 12 }

-- The text of the alarm stands in the command as it came.
filled :
    execute_script_async noon
      (codes "log %{json_chan} %{json_desc} %f %T")
      gate
      (some motion)
      (codes "a.mp4")
    ≡ some (codes "log 12 x; reboot a.mp4 12:00:00")
unfolding execute_script_async
filled = refl

-- `log 12 a.mp4 12:00:00`, from the macros of the channel, the file and the time.
abbrev report : List Piece
report =
    literal (codes "log ")
    ∷ macro 11
    ∷ literal (codes " ")
    ∷ macro 18
    ∷ literal (codes " ")
    ∷ macro 6
    ∷ []

report-text : shown spelling report ≡ codes "log %{json_chan} %f %T"
unfolding shown nth
report-text = refl

values-IsPlain : All IsPlain (values noon gate (some motion) (codes "a.mp4"))
unfolding extract_ip_hex_from_rtsp decimal_ℤ are_plain is_plain
values-IsPlain = are_plain-lem (values noon gate (some motion) (codes "a.mp4")) refl

report-IsPiece : All IsPiece report
unfolding is_plain
report-IsPiece = (
  is_plain-lem (codes "log ") refl,
  (
    omega arith,
    (
      is_plain-lem (codes " ") refl,
      (omega arith, (is_plain-lem (codes " ") refl, (omega arith, tt))),
    ),
  ),
)

execute_script_async-shown_example :
    execute_script_async noon (shown spelling report) gate (some motion) (codes "a.mp4")
    ≡ some (codes "log 12 a.mp4 12:00:00")
unfolding shown nth decimal_ℤ
execute_script_async-shown_example =
    execute_script_async-shown noon report gate (some motion) (codes "a.mp4") report-IsPiece
      values-IsPlain refl

-- After a recording the alarm's macro goes to the shell unreplaced.
without_alarm :
    execute_script_async noon (codes "up %f -t %{json_event}") gate none (codes "a.mp4")
    ≡ some (codes "up a.mp4 -t %{json_event}")
unfolding execute_script_async
without_alarm = refl
