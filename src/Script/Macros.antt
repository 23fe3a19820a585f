-- ===== src/Script/Macros.antt =====
-- The macros of a command by their numbers, and commands made of them.
use ivckolpak.Prelude.{
  ℕ, zero, suc, ◌<◌, List, [], ◌∷◌, ◌++◌, Bool, true, not, ◌&&◌, leb, if◌then◌else◌, Option, none,
  some,
}
use ivckolpak.Prelude.Bytes.{Bytes, codes}
use ivckolpak.Prelude.Text.{decimal_ℤ}
use ivckolpak.Alarm.Event.{AlarmEvent}
use ivckolpak.Config.Types.{CameraConfig}
use ivckolpak.Config.Address.{extract_ip_hex_from_rtsp}
use ivckolpak.Config.Filename.{LocalTime}
use ivckolpak.Script.Plain.{IsPlain}

-- The macros without their `%`, in the order of their replacement.
abbrev pub macros : List Bytes
macros =
    codes "Y"
    ∷ codes "m"
    ∷ codes "d"
    ∷ codes "H"
    ∷ codes "M"
    ∷ codes "S"
    ∷ codes "T"
    ∷ codes "{cam_name}"
    ∷ codes "{cam_id}"
    ∷ codes "{cam_ip}"
    ∷ codes "{json_addr}"
    ∷ codes "{json_chan}"
    ∷ codes "{json_desc}"
    ∷ codes "{json_event}"
    ∷ codes "{json_serialid}"
    ∷ codes "{json_starttime}"
    ∷ codes "{json_status}"
    ∷ codes "{json_alarm}"
    ∷ codes "f"
    ∷ []

abbrev pub num_macros : ℕ
num_macros = 19

-- What stands for the macros of an alarm; nothing does where there is none.
abbrev pub event_values : Option AlarmEvent → List Bytes
event_values none = [] ∷ [] ∷ [] ∷ [] ∷ [] ∷ [] ∷ [] ∷ [] ∷ []
event_values (some evt) =
    evt.address
    ∷ decimal_ℤ evt.channel
    ∷ evt.description
    ∷ evt.event_type
    ∷ evt.serial_id
    ∷ evt.start_time
    ∷ evt.status
    ∷ evt.alarm_type
    ∷ []

-- What stands for each macro.
abbrev pub values : LocalTime → CameraConfig → Option AlarmEvent → Bytes → List Bytes
values now cfg evt fp =
    now.year
      ∷ now.month
      ∷ now.day
      ∷ now.hour
      ∷ now.minute
      ∷ now.second
      ∷ now.time
      ∷ cfg.name
      ∷ cfg.serialid
      ∷ extract_ip_hex_from_rtsp cfg.rtsp_url
      ∷ event_values evt
    ++ fp ∷ []

-- The macros of an alarm.
abbrev pub of_event : ℕ → Bool
of_event i = leb 10 i && leb i 17

-- Whether a macro is replaced: those of an alarm only where there is one.
abbrev pub is_filled : Option AlarmEvent → ℕ → Bool
is_filled none i = not (of_event i)
is_filled (some evt) i = true

unfoldable pub nth : List Bytes → ℕ → Bytes
nth [] i = []
nth (x ∷ xs) zero = x
nth (x ∷ xs) (suc i) = nth xs i

pub data Piece : Type 0 where
  literal : Bytes → Piece
  macro : ℕ → Piece

-- The texts between the macros hold no `%`, and the macros are some of the nineteen.
abbrev pub IsPiece : Piece → Type 0
IsPiece (literal r) = IsPlain r
IsPiece (macro i) = i < num_macros

-- The pieces one after the other, each macro as a function shows it.
unfoldable pub shown : (ℕ → Bytes) → List Piece → Bytes
shown show [] = []
shown show (literal r ∷ ps) = r ++ shown show ps
shown show (macro i ∷ ps) = show i ++ shown show ps

abbrev pub spelling : ℕ → Bytes
spelling i = b'%' ∷ nth macros i

-- A macro that is replaced is shown as its value, another one as it is written.
abbrev pub filling : Option AlarmEvent → List Bytes → ℕ → Bytes
filling evt vs i = if is_filled evt i then nth vs i else spelling i
