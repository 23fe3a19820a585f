-- ===== src/Session/Graph/Calls.antt =====
-- recording_session.cpp: each call along the diagram of the states.
use ivckolpak.Prelude.{
  ◌≡◌, refl, sym, ◌∙◌, ap, ◌&&◌, Bool, true, false, Option, some, arith, if◌then◌else◌, Bool-cases,
  inl, inr, [],
}
use mathlib.Core.Path.{subst}
use ivckolpak.Prelude.Bytes.{Bytes, is_empty}
use ivckolpak.Alarm.Event.{AlarmEvent}
use ivckolpak.Session.State.{
  State, idle, pre_buffer, recording, finalizing, post_buffer, Session, Library, OpenReply, Moment,
  CodecParams, StreamInfo,
}
use ivckolpak.Session.Push.{push_locked, push_packet}
use ivckolpak.Session.Muxer.{finalize_file_io, io_with}
use ivckolpak.Session.Control.{
  start_event, begin_event, continue_event, continue_in, stop_event, stop_in, force_stop,
  force_active, notify_forced, end_force, shutdown, halt, is_active, path_of, has_muxer,
  begin_force,
}
use ivckolpak.Session.Valid.Files.{io_with-SameCore}
use ivckolpak.Session.Run.{Call, push, start, continue, stop, force, call}
use ivckolpak.Session.Graph.{
  Kind, starting, continuing, stopping, forcing, halting, kind, Edge, alarm, alarm_after_shutdown,
  busy_recording, busy_post_buffer, busy_finalizing, alarm_again, go_on_recording, go_on_finalizing,
  go_on_pre_buffer, go_on_idle, alarm_over, over_post_buffer, over_finalizing, over_pre_buffer,
  over_idle, forced_recording, forced_post_buffer, forced_finalizing, not_forced_pre_buffer,
  not_forced_idle, shut, finish_push-Edge, push_locked-KeepsState, state_of,
}

start_busy-Edge :
    (st : State) (lib : Library) (at : Moment) (r : OpenReply) (evt : AlarmEvent)
    (codec : Option CodecParams) (info : StreamInfo) (s : Session)
    → s.state ≡ st
    → is_active st ≡ true
    → (start_event lib at r evt codec info s).state ≡ st
unfolding start_event
start_busy-Edge st lib at r evt codec info s e h =
    ap (λ b. (if b then s else begin_event lib at r evt codec info s).state) (ap is_active e ∙ h)
    ∙ e

start_free-Edge :
    (st : State) (lib : Library) (at : Moment) (r : OpenReply) (evt : AlarmEvent)
    (codec : Option CodecParams) (info : StreamInfo) (s : Session)
    → s.state ≡ st
    → is_active st ≡ false
    → (start_event lib at r evt codec info s).state ≡ recording
unfolding start_event begin_event
start_free-Edge st lib at r evt codec info s e h =
    ap (λ b. (if b then s else begin_event lib at r evt codec info s).state) (ap is_active e ∙ h)

to : {k : Kind} {a b c : State} → c ≡ b → Edge k a b → Edge k a c
to {k} {a} e edge = subst (λ x. Edge k a x) (sym e) edge

start_in-Edge :
    (st : State) (lib : Library) (at : Moment) (r : OpenReply) (evt : AlarmEvent)
    (codec : Option CodecParams) (info : StreamInfo) (s : Session)
    → s.state ≡ st
    → Edge starting st (start_event lib at r evt codec info s).state
start_in-Edge idle lib at r evt codec info s e =
    to (start_free-Edge idle lib at r evt codec info s e refl) alarm_after_shutdown
start_in-Edge pre_buffer lib at r evt codec info s e =
    to (start_free-Edge pre_buffer lib at r evt codec info s e refl) alarm
start_in-Edge recording lib at r evt codec info s e =
    to (start_busy-Edge recording lib at r evt codec info s e refl) busy_recording
start_in-Edge post_buffer lib at r evt codec info s e =
    to (start_busy-Edge post_buffer lib at r evt codec info s e refl) busy_post_buffer
start_in-Edge finalizing lib at r evt codec info s e =
    to (start_busy-Edge finalizing lib at r evt codec info s e refl) busy_finalizing

continue_in-Edge :
    (st : State) (evt : AlarmEvent) (s : Session)
    → s.state ≡ st
    → Edge continuing st (continue_in st evt s).state
unfolding continue_in
continue_in-Edge idle evt s e = to e go_on_idle
continue_in-Edge pre_buffer evt s e = to e go_on_pre_buffer
continue_in-Edge finalizing evt s e = to e go_on_finalizing
continue_in-Edge post_buffer evt s e = alarm_again
continue_in-Edge recording evt s e = to e go_on_recording

stop_in-Edge : (st : State) (s : Session) → s.state ≡ st → Edge stopping st (stop_in st s).state
unfolding stop_in
stop_in-Edge recording s e = alarm_over
stop_in-Edge idle s e = to e over_idle
stop_in-Edge pre_buffer s e = to e over_pre_buffer
stop_in-Edge post_buffer s e = to e over_post_buffer
stop_in-Edge finalizing s e = to e over_finalizing

notify_forced-state :
    (path : Bytes) (b : Bool) (s : Session) → (notify_forced path b s).state ≡ s.state
unfolding notify_forced
notify_forced-state path b s = ground arith

force_active-state : (ok : Bool) (s : Session) → (force_active ok s).state ≡ pre_buffer
unfolding force_active end_force
force_active-state ok s =
    let path = path_of s.out_fmt_ctx s.current_filename in
    notify_forced-state path (has_muxer s.out_fmt_ctx && s.cfg.on_video_save)
      (end_force (finalize_file_io path ok (begin_force s)).0)

force_in-Edge :
    (st : State) (ok : Bool) (s : Session)
    → s.state ≡ st
    → Edge forcing st (if is_active st then force_active ok s else s).state
force_in-Edge recording ok s e = to (force_active-state ok s) forced_recording
force_in-Edge post_buffer ok s e = to (force_active-state ok s) forced_post_buffer
force_in-Edge finalizing ok s e = to (force_active-state ok s) forced_finalizing
force_in-Edge pre_buffer ok s e = to e not_forced_pre_buffer
force_in-Edge idle ok s e = to e not_forced_idle

force_stop-Edge : (ok : Bool) (s : Session) → Edge forcing s.state (force_stop ok s).state
unfolding force_stop
force_stop-Edge ok s = force_in-Edge s.state ok s refl

finalize_file_io-state :
    (path : Bytes) (ok : Bool) (s : Session) → (finalize_file_io path ok s).0.state ≡ s.state
unfolding finalize_file_io
finalize_file_io-state path ok s =
    let both = λ (b : Bool). (if b then (s, false) else io_with path ok s.out_fmt_ctx s) in
    elim (Bool-cases (is_empty path)) [
      | inl h ↦ ap (λ b. (both b).0.state) h
      | inr h ↦ ap (λ b. (both b).0.state) h ∙ (io_with-SameCore path ok s.out_fmt_ctx s).state
    ]

shutdown-Edge : (ok : Bool) (s : Session) → Edge halting s.state (shutdown ok s).state
unfolding shutdown halt
shutdown-Edge ok s =
    to
      (finalize_file_io-state
        (if is_active s.state then path_of s.out_fmt_ctx s.current_filename else []) ok (halt s))
      shut

-- Every call does with the state just what the diagram lets this call do: where it returns, there is an edge of
-- its kind from the state before it to the state after it, whatever FFmpeg and the clocks return. But for a
-- packet in POST_BUFFER, the state after a call is settled by the call and the state before it.
pub call-Edge :
    (lib : Library) (c : Call) (s t : Session)
    → call lib c s ≡ some t
    → Edge (kind c) s.state t.state
unfolding call push_packet continue_event stop_event
call-Edge lib (push now r p) s t e =
    finish_push-Edge lib r s.state (push_locked lib now p s) t (push_locked-KeepsState lib now p s)
      e
call-Edge lib (start at r evt codec info) s t e =
    to (sym (ap state_of e)) (start_in-Edge s.state lib at r evt codec info s refl)
call-Edge lib (continue evt) s t e = to (sym (ap state_of e)) (continue_in-Edge s.state evt s refl)
call-Edge lib stop s t e = to (sym (ap state_of e)) (stop_in-Edge s.state s refl)
call-Edge lib (force ok) s t e = to (sym (ap state_of e)) (force_stop-Edge ok s)
call-Edge lib (Call.halt ok) s t e = to (sym (ap state_of e)) (shutdown-Edge ok s)
