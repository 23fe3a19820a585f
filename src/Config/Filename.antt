-- ===== src/Config/Filename.antt =====
-- config.cpp `format_filename` and `sanitize_filename`: the name of a recording.
use ivckolpak.Prelude.{
  ℕ, zero, suc, ◌+◌, ◌≤◌, ◌≡◌, Bool, false, ◌||◌, [], ◌∷◌, ◌++◌, map, Option, none, some, arith,
  ltb, ◌==◌, if◌then◌else◌, length, take, All, length-take, Bool-cases, inl, inr,
}
use ivckolpak.Prelude.Int.{ℤ, pos, is_pos}
use ivckolpak.Prelude.Bytes.{Bytes, codes, bytes_eq}
use ivckolpak.Prelude.Text.{find_at, decimal_ℤ}
use ivckolpak.Alarm.Event.{AlarmEvent}
use ivckolpak.Config.Types.{CameraConfig}
use ivckolpak.Config.Address.{extract_ip_hex_from_rtsp}

-- What `strftime` makes of the local time for each format that the program asks for.
pub record LocalTime : Type 0 where
  pub year : Bytes
  pub month : Bytes
  pub day : Bytes
  pub hour : Bytes
  pub minute : Bytes
  pub second : Bytes
  pub time : Bytes

-- `inv.find(c) != npos || (unsigned char)c < 32`
unfoldable pub is_forbidden : ℕ → Bool
is_forbidden c =
    c == b'<'
    || (c == b'>'
        || (c == b':'
            || (c == b'"'
                || (c == b'/'
                    || (c == b'\\' || (c == b'|' || (c == b'?' || (c == b'*' || ltb c 32))))))))

unfoldable pub sanitize_byte : ℕ → ℕ
unfolding is_forbidden
sanitize_byte c = if is_forbidden c then b'_' else c

unfoldable pub sanitize_filename : Bytes → Bytes
unfolding sanitize_byte
sanitize_filename n =
    let clean = map sanitize_byte n in if ltb 255 (length clean) then take 255 clean else clean

-- The macros that need an event.
json_macro : Bytes → AlarmEvent → Bytes
json_macro key evt =
    if bytes_eq key (codes "json_addr")
    then evt.address
    else if bytes_eq key (codes "json_chan")
    then decimal_ℤ evt.channel
    else if bytes_eq key (codes "json_desc")
    then evt.description
    else if bytes_eq key (codes "json_event")
    then evt.event_type
    else if bytes_eq key (codes "json_serialid")
    then evt.serial_id
    else if bytes_eq key (codes "json_starttime")
    then evt.start_time
    else if bytes_eq key (codes "json_status")
    then evt.status
    else if bytes_eq key (codes "json_alarm")
    then evt.alarm_type
    else []

event_macro : Bytes → Option AlarmEvent → Bytes
unfolding json_macro
event_macro key none = []
event_macro key (some evt) = json_macro key evt

-- `%e`
event_number : Option AlarmEvent → Bytes
event_number none = decimal_ℤ (pos 0)
event_number (some evt) = decimal_ℤ (if is_pos evt.event_id then evt.event_id else pos 0)

module _ (now : LocalTime) (cfg : CameraConfig) (chunk_idx : ℤ) (evt : Option AlarmEvent) where
  -- `%{key}`; a key that is not known gives nothing.
  named_macro : Bytes → Bytes
  unfolding event_macro extract_ip_hex_from_rtsp
  named_macro key =
      if bytes_eq key (codes "cam_id")
      then cfg.serialid
      else if bytes_eq key (codes "cam_name")
      then cfg.name
      else if bytes_eq key (codes "cam_ip")
      then extract_ip_hex_from_rtsp cfg.rtsp_url
      else event_macro key evt

  braced_macro : Bytes → Option ℕ → Option (Bytes × ℕ)
  unfolding named_macro
  braced_macro more none = none
  braced_macro more (some n) = some (named_macro (take n more), n + 2)

  -- What a `%` in front of these bytes stands for, and how many of them it takes up; none where it
  -- is copied as it is.
  expand : Bytes → Option (Bytes × ℕ)
  unfolding event_number braced_macro find_at
  expand [] = none
  expand (next ∷ more) =
      if next == b'Y'
      then some (now.year, 1)
      else if next == b'm'
      then some (now.month, 1)
      else if next == b'd'
      then some (now.day, 1)
      else if next == b'H'
      then some (now.hour, 1)
      else if next == b'M'
      then some (now.minute, 1)
      else if next == b'S'
      then some (now.second, 1)
      else if next == b'T'
      then some (now.time, 1)
      else if next == b'v'
      then some (decimal_ℤ chunk_idx, 1)
      else if next == b'e'
      then some (event_number evt, 1)
      else if next == b'{'
      then braced_macro more (find_at b'}' 0 more)
      else none

  expand_at : ℕ → Bytes → Option (Bytes × ℕ)
  unfolding expand
  expand_at c cs = if c == b'%' then expand cs else none

  -- The loop; the number is how many bytes the last macro still takes up.
  format_from : ℕ → Bytes → Bytes
  unfolding expand_at
  format_from skip [] = []
  format_from (suc skip) (c ∷ cs) = format_from skip cs
  format_from zero (c ∷ cs) = elim (expand_at c cs) [
    | none ↦ c ∷ format_from zero cs
    | some (text, taken) ↦ text ++ format_from taken cs
  ]

unfoldable pub format_filename : LocalTime → Bytes → CameraConfig → ℤ → Option AlarmEvent → Bytes
unfolding format_from sanitize_filename
format_filename now fmt cfg chunk_idx evt =
    sanitize_filename (format_from now cfg chunk_idx evt zero fmt)

-- A byte that a file name may hold.
abbrev pub IsAllowed : ℕ → Type 0
IsAllowed c = is_forbidden c ≡ false

sanitize_byte-IsAllowed : (c : ℕ) → IsAllowed (sanitize_byte c)
unfolding sanitize_byte
sanitize_byte-IsAllowed c = ground arith

map-sanitize_byte : (n : Bytes) → All IsAllowed (map sanitize_byte n)
map-sanitize_byte [] = tt
map-sanitize_byte (c ∷ cs) = (sanitize_byte-IsAllowed c, map-sanitize_byte cs)

All-take : (k : ℕ) (n : Bytes) → All IsAllowed n → All IsAllowed (take k n)
All-take zero n h = tt
All-take (suc k) [] h = tt
All-take (suc k) (c ∷ cs) h = (h.0, All-take k cs h.1)

-- What `sanitize_filename` returns is at most 255 bytes long and holds no separator, no wildcard and no
-- control byte.
pub sanitize_filename_safe :
    (n : Bytes) → All IsAllowed (sanitize_filename n) × (length (sanitize_filename n) ≤ 255)
unfolding sanitize_filename
sanitize_filename_safe n = elim (Bool-cases (ltb 255 (length (map sanitize_byte n)))) [
  | inl long ↦
      rw long
        (All-take 255 _ (map-sanitize_byte n), omega (arith, length-take 255 (map sanitize_byte n)))
  | inr short ↦ rw short (map-sanitize_byte n, ground arith)
]

-- Whatever the template, the camera and the alarm hold, the name of a recording has at most 255 bytes, and
-- no byte of it is a separator, a wildcard or a control byte.
pub format_filename_safe :
    (now : LocalTime) (fmt : Bytes) (cfg : CameraConfig) (chunk_idx : ℤ) (evt : Option AlarmEvent)
    → All IsAllowed (format_filename now fmt cfg chunk_idx evt)
      × (length (format_filename now fmt cfg chunk_idx evt) ≤ 255)
unfolding format_filename
format_filename_safe now fmt cfg chunk_idx evt =
    sanitize_filename_safe (format_from now cfg chunk_idx evt zero fmt)
