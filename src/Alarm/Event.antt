-- ===== src/Alarm/Event.antt =====
-- alarm_event.hpp: one alarm as the server decodes it.
use ivckolpak.Prelude.{◌∷◌, ◌≡◌, true, false, arith, Bool, ◌||◌, map, []}
use ivckolpak.Prelude.Int.{ℤ, pos}
use ivckolpak.Prelude.Bytes.{Bytes, codes, bytes_eq, to_lower}

pub record AlarmEvent : Type 0 where
  pub address : Bytes
  pub channel : ℤ
  pub description : Bytes
  pub event_type : Bytes
  pub serial_id : Bytes
  pub start_time : Bytes
  pub status : Bytes
  pub type : Bytes
  pub address_ip : Bytes
  pub camera_id : Bytes
  pub alarm_type : Bytes
  pub event_id : ℤ

-- `AlarmEvent evt;`
abbrev pub blank : AlarmEvent
blank = record {
  address = [];
  channel = pos 0;
  description = [];
  event_type = [];
  serial_id = [];
  start_time = [];
  status = [];
  type = [];
  address_ip = [];
  camera_id = [];
  alarm_type = [];
  event_id = pos 0;
}

unfoldable pub is_start : AlarmEvent → Bool
is_start e =
    let s = map to_lower e.status in
    bytes_eq s (codes "start") || (bytes_eq s (codes "1") || bytes_eq s (codes "on"))

unfoldable pub is_stop : AlarmEvent → Bool
is_stop e =
    let s = map to_lower e.status in
    bytes_eq s (codes "stop")
    || (bytes_eq s (codes "end") || (bytes_eq s (codes "0") || bytes_eq s (codes "off")))

starts : Bytes → Bool
starts s = bytes_eq s (codes "start") || (bytes_eq s (codes "1") || bytes_eq s (codes "on"))

stops : Bytes → Bool
stops s =
    bytes_eq s (codes "stop")
    || (bytes_eq s (codes "end") || (bytes_eq s (codes "0") || bytes_eq s (codes "off")))

starts-stops : (s : Bytes) → starts s ≡ true → stops s ≡ false
unfolding starts stops bytes_eq
starts-stops [] h = ground (arith, h)
starts-stops (a ∷ []) h = ground (arith, h)
starts-stops (a ∷ b ∷ []) h = ground (arith, h)
starts-stops (a ∷ b ∷ c ∷ s) h = ground (arith, h)

-- No status is both a start and a stop.
pub is_start-is_stop : (e : AlarmEvent) → is_start e ≡ true → is_stop e ≡ false
unfolding is_start is_stop starts stops
is_start-is_stop e h = starts-stops (map to_lower e.status) h
