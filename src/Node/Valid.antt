-- ===== src/Node/Valid.antt =====
-- camera_node.cpp: the session of a node over its alarms.
use ivckolpak.Prelude.{
  ◌≡◌, sym, Bool, true, false, not, Option, none, some, arith, Bool-cases, inl, inr, if◌then◌else◌,
}
use mathlib.Core.Path.{subst}
use ivckolpak.Alarm.Event.{AlarmEvent, is_start, is_stop}
use ivckolpak.Prelude.Bytes.{Bytes}
use ivckolpak.Prelude.Int.{pos, ◌+ℤ◌}
use ivckolpak.Session.State.{Session, CodecParams, StreamInfo, Library, OpenReply, Moment}
use ivckolpak.Session.Control.{start_event}
use ivckolpak.Session.Valid.{IsValid}
use ivckolpak.Session.Valid.Control.{
  start_event-IsValid, continue_event-IsValid, stop_event-IsValid,
}
use ivckolpak.Node.{
  StreamView, Node, run_script, continue_alarm, start_with, new_alarm, stop_alarm, on_alarm,
  is_recording,
}

run_script-session :
    (cmd : Bytes) (evt : AlarmEvent) (n : Node) → (run_script cmd evt n).session ≡ n.session
unfolding run_script
run_script-session cmd evt n = ground arith

start_with-IsValid :
    (lib : Library) (at : Moment) (r : OpenReply) (evt : AlarmEvent) (codec : Option CodecParams)
    (info : StreamInfo) (s : Session)
    → IsValid s
    → IsValid (start_with lib at r evt codec info s)
unfolding start_with
start_with-IsValid lib at r evt none info s v = v
start_with-IsValid lib at r evt (some codec) info s v = elim (Bool-cases info.valid) [
  | inl h ↦
      subst (λ b. IsValid (if b then start_event lib at r evt (some codec) info s else s)) (sym h)
        (start_event-IsValid lib at r evt (some codec) info s v)
  | inr h ↦
      subst (λ b. IsValid (if b then start_event lib at r evt (some codec) info s else s)) (sym h) v
]

-- Choosing one of two nodes.
choose-IsValid :
    (b : Bool) (m n : Node)
    → IsValid m.session
    → IsValid n.session
    → IsValid (if b then m else n).session
choose-IsValid true m n v w = v
choose-IsValid false m n v w = w

-- Whatever alarm comes, in whatever state node and stream are, and whatever FFmpeg returns, `on_alarm` leaves
-- a valid session valid.
pub on_alarm-IsValid :
    (lib : Library) (at : Moment) (r : OpenReply) (view : StreamView) (evt : AlarmEvent) (n : Node)
    → IsValid n.session
    → IsValid (on_alarm lib at r view evt n).session
unfolding on_alarm stop_alarm continue_alarm new_alarm
on_alarm-IsValid lib at r view evt n v =
    let scripted = λ (cmd : Bytes) (m : Node) (w : IsValid m.session).
      subst IsValid (sym (run_script-session cmd evt m)) w in
    choose-IsValid (not n.initialized) n _ v (
      choose-IsValid (is_stop evt) (stop_alarm evt n) _
        (stop_event-IsValid _ (scripted n.cfg.on_event_stop n v))
        (choose-IsValid (not view.is_alive) n _ v (
          choose-IsValid (is_start evt) _ n
            (choose-IsValid (is_recording n.session.state) (continue_alarm evt n)
              (new_alarm lib at r view evt n)
              (continue_event-IsValid evt _ (scripted n.cfg.on_event_start n v))
              (start_with-IsValid lib at r evt view.codec_params view.info _ (
                scripted n.cfg.on_event_start
                  (record n { event_counter = n.event_counter +ℤ pos 1 }) v)))
            v)))
