-- ===== src/Alarm/Decode.antt =====
-- alarm_server.cpp: how an alarm is read from a JSON object, and its address converted.
use ivckolpak.Prelude.{
  ℕ, ◌+◌, ◌*◌, ◌/◌, ◌%◌, ◌^◌, ◌<◌, ◌≡◌, not, ◌&&◌, List, [], ◌∷◌, Option, none, some, arith, leb,
  if◌then◌else◌, length,
}
use ivckolpak.Prelude.Bytes.{Bytes, codes, bytes_eq, is_empty}
use ivckolpak.Prelude.Int.{ℤ}
use ivckolpak.Prelude.Text.{substr, stoi, stoul_hex}
use ivckolpak.Alarm.Event.{AlarmEvent, blank}
use ivckolpak.Config.Address.{u32_mod, hex_address, dotted}

-- What `json_value_as_string` and `json_value_as_number` see of a value.
pub data JsonValue : Type 0 where
  string : Bytes → JsonValue
  number : Bytes → JsonValue
  other : JsonValue

pub record Element : Type 0 where
  pub name : Bytes
  pub value : JsonValue

-- A root that is an object, with its elements, or something else.
pub data Root : Type 0 where
  object : List Element → Root
  no_object : Root

with_channel : AlarmEvent → Option ℤ → Option AlarmEvent
with_channel evt none = none
with_channel evt (some n) = some (record evt { channel = n })

set_text : Bytes → Bytes → AlarmEvent → AlarmEvent
set_text key text evt =
    if bytes_eq key (codes "Type")
    then record evt { type = text }
    else if bytes_eq key (codes "Address")
    then record evt { address = text }
    else if bytes_eq key (codes "Descrip")
    then record evt { description = text }
    else if bytes_eq key (codes "Event")
    then record evt { event_type = text }
    else if bytes_eq key (codes "SerialID")
    then record evt { serial_id = text }
    else if bytes_eq key (codes "StartTime")
    then record evt { start_time = text }
    else if bytes_eq key (codes "Status")
    then record evt { status = text }
    else evt

-- One element of the object; none where `std::stoi` throws.
unfoldable pub set_field : Bytes → JsonValue → AlarmEvent → Option AlarmEvent
unfolding set_text with_channel stoi
set_field key (string text) evt = some (set_text key text evt)
set_field key (number text) evt =
    if bytes_eq key (codes "Channel") then with_channel evt (stoi text) else some evt
set_field key other evt = some evt

-- The loop over the elements.
unfoldable pub set_fields : List Element → AlarmEvent → Option AlarmEvent
unfolding set_field
set_fields [] evt = some evt
set_fields (e ∷ es) evt = elim (set_field e.name e.value evt) [
  | none ↦ none
  | some evt' ↦ set_fields es evt'
]

-- The four bytes of a 32-bit word in the other order: `v_be` of `v_le`.
unfoldable pub swap_bytes : ℕ → ℕ
swap_bytes v =
    v % 2 ^ 8 * 2 ^ 24
    + v / 2 ^ 8 % 2 ^ 8 * 2 ^ 16
    + v / 2 ^ 16 % 2 ^ 8 * 2 ^ 8
    + v / 2 ^ 24 % 2 ^ 8

-- The address as the server puts it into the event; where `stoul` throws it is left.
with_address : AlarmEvent → Option ℕ → AlarmEvent
unfolding swap_bytes hex_address dotted
with_address evt none = evt
with_address evt (some v) =
    let v_be = swap_bytes (v % u32_mod) in
    record evt { address = hex_address v_be; address_ip = dotted v_be }

unfoldable pub convert_address : AlarmEvent → AlarmEvent
unfolding with_address stoul_hex substr
convert_address evt =
    if not (is_empty evt.address) && leb 10 (length evt.address)
    then with_address evt (stoul_hex (substr evt.address 2 (length evt.address)))
    else evt

-- Only an alarm goes to the callback.
alarms_of : AlarmEvent → List AlarmEvent
unfolding convert_address
alarms_of evt = if bytes_eq evt.type (codes "Alarm") then convert_address evt ∷ [] else []

alarms_from : Option AlarmEvent → Option (List AlarmEvent)
unfolding alarms_of
alarms_from none = none
alarms_from (some evt) = some (alarms_of evt)

-- What the callback is given for what `json_parse` returned; none where an exception is thrown.
unfoldable pub decode : Option Root → Option (List AlarmEvent)
unfolding alarms_from set_fields
decode none = some []
decode (some no_object) = some []
decode (some (object es)) = alarms_from (set_fields es blank)

swap_bytes_small : (v : ℕ) → swap_bytes v < 2 ^ 32
unfolding swap_bytes
swap_bytes_small v = omega arith

-- Turning a 32-bit address around twice gives it back.
pub swap_bytes_invol : (v : ℕ) → v < 2 ^ 32 → swap_bytes (swap_bytes v) ≡ v
unfolding swap_bytes
swap_bytes_invol v h = omega arith
