-- ===== src/Script/Plain.antt =====
-- Commands and texts without a macro.
use ivckolpak.Prelude.{
  List, ℕ, zero, ◌≡◌, refl, ◌∙◌, ap, true, false, [], ◌∷◌, ◌++◌, Option, none, some, arith, ◌==◌,
  length, Bool, not, ◌&&◌, false, ◌-◌, All,
}
use ivckolpak.Prelude.Bytes.{Bytes, codes, is_empty}
use ivckolpak.Prelude.Text.{starts_with, decimal_ℤ}
use ivckolpak.Alarm.Event.{AlarmEvent}
use ivckolpak.Config.Types.{CameraConfig}
use ivckolpak.Config.Address.{extract_ip_hex_from_rtsp}
use ivckolpak.Config.Filename.{LocalTime}
use ivckolpak.Script.{rep_from, rep, rep_event, rep_camera, rep_time, execute_script_async}

-- No byte is a `%`.
abbrev pub IsPlain : Bytes → Type 0
IsPlain r = All (λ c. (c == b'%') ≡ false) r

unfoldable pub is_plain : Bytes → Bool
is_plain [] = true
is_plain (c ∷ cs) = not (c == b'%') && is_plain cs

pub is_plain-lem : (r : Bytes) → is_plain r ≡ true → IsPlain r
unfolding is_plain
is_plain-lem [] h = tt
is_plain-lem (c ∷ cs) h = (ground arith, is_plain-lem cs (ground arith))

unfoldable pub are_plain : List Bytes → Bool
are_plain [] = true
are_plain (r ∷ rs) = is_plain r && are_plain rs

pub are_plain-lem : (rs : List Bytes) → are_plain rs ≡ true → All IsPlain rs
unfolding are_plain
are_plain-lem [] h = tt
are_plain-lem (r ∷ rs) h = (is_plain-lem r (ground arith), are_plain-lem rs (ground arith))

pub no_macro :
    (t : Bytes) (c : ℕ) (cs : Bytes) → (c == b'%') ≡ false → starts_with (b'%' ∷ t) (c ∷ cs) ≡ false
unfolding starts_with
no_macro t c cs h = ground (arith, h)

rep_from-IsPlain : (t v r : Bytes) → IsPlain r → rep_from (b'%' ∷ t) v zero r ≡ r
unfolding rep_from
rep_from-IsPlain t v [] h = refl
rep_from-IsPlain t v (c ∷ cs) h =
    ap
      (λ b. elim b as (λ x. Bytes) [
        | true ↦ v ++ rep_from (b'%' ∷ t) v (length (b'%' ∷ t) - 1) cs
        | false ↦ c ∷ rep_from (b'%' ∷ t) v zero cs
      ])
      (no_macro t c cs h.0)
    ∙ ap (λ r. c ∷ r) (rep_from-IsPlain t v cs h.1)

rep-IsPlain : (t v r : Bytes) → IsPlain r → rep (b'%' ∷ t) v r ≡ r
unfolding rep
rep-IsPlain t v r h = rep_from-IsPlain t v r h

-- One more macro that is not there.
then_rep : (t v r s : Bytes) → IsPlain r → s ≡ r → rep (b'%' ∷ t) v s ≡ r
then_rep t v r s h e = ap (rep (b'%' ∷ t) v) e ∙ rep-IsPlain t v r h

time-IsPlain : (now : LocalTime) (r : Bytes) → IsPlain r → rep_time now r ≡ r
unfolding rep_time
time-IsPlain now r h = then_rep (codes "T") now.time r _ h (
    then_rep (codes "S") now.second r _ h (
      then_rep (codes "M") now.minute r _ h (
        then_rep (codes "H") now.hour r _ h (
          then_rep (codes "d") now.day r _ h
            (then_rep (codes "m") now.month r _ h (then_rep (codes "Y") now.year r _ h (refl)))))))

camera-IsPlain : (cfg : CameraConfig) (r : Bytes) → IsPlain r → rep_camera cfg r ≡ r
unfolding rep_camera
camera-IsPlain cfg r h = then_rep (codes "{cam_ip}") (extract_ip_hex_from_rtsp cfg.rtsp_url) r _ h (
    then_rep (codes "{cam_id}") cfg.serialid r _ h
      (then_rep (codes "{cam_name}") cfg.name r _ h (refl)))

event-IsPlain : (evt : Option AlarmEvent) (r : Bytes) → IsPlain r → rep_event evt r ≡ r
unfolding rep_event
event-IsPlain none r h = refl
event-IsPlain (some evt) r h = then_rep (codes "{json_alarm}") evt.alarm_type r _ h (
    then_rep (codes "{json_status}") evt.status r _ h (
      then_rep (codes "{json_starttime}") evt.start_time r _ h (
        then_rep (codes "{json_serialid}") evt.serial_id r _ h (
          then_rep (codes "{json_event}") evt.event_type r _ h (
            then_rep (codes "{json_desc}") evt.description r _ h (
              then_rep (codes "{json_chan}") (decimal_ℤ evt.channel) r _ h
                (then_rep (codes "{json_addr}") evt.address r _ h (refl))))))))

submitted :
    (now : LocalTime) (cmd : Bytes) (cfg : CameraConfig) (evt : Option AlarmEvent) (fp : Bytes)
    → is_empty cmd ≡ false
    → execute_script_async now cmd cfg evt fp
      ≡ some (rep (codes "%f") fp (rep_event evt (rep_camera cfg (rep_time now cmd))))
unfolding execute_script_async
submitted now cmd cfg evt fp e = simp e

-- A command without `%` goes to the shell as it is, whatever camera, alarm and file it is run for.
pub execute_script_async-IsPlain :
    (now : LocalTime) (cmd : Bytes) (cfg : CameraConfig) (evt : Option AlarmEvent) (fp : Bytes)
    → is_empty cmd ≡ false
    → IsPlain cmd
    → execute_script_async now cmd cfg evt fp ≡ some cmd
execute_script_async-IsPlain now cmd cfg evt fp e h =
    submitted now cmd cfg evt fp e
    ∙ ap some (
        then_rep (codes "f") fp cmd _ h (
          ap (λ x. rep_event evt (rep_camera cfg x)) (time-IsPlain now cmd h)
          ∙ ap (rep_event evt) (camera-IsPlain cfg cmd h)
          ∙ event-IsPlain evt cmd h))
