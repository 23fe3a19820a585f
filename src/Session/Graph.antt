-- ===== src/Session/Graph.antt =====
-- recording_session.cpp: the states of a session as a diagram.
pub mod Calls
mod Tests
use ivckolpak.Prelude.{
  ℕ, ◌≡◌, ◌≢◌, refl, sym, ◌∙◌, ap, ◌||◌, ◌&&◌, not, Bool, true, false, Option, none, some, arith,
  if◌then◌else◌, Bool-cases, inl, inr, ltb, ◌==◌, List, [], ◌∷◌,
}
use mathlib.Core.Path.{subst}
use ivckolpak.Prelude.Bytes.{Bytes, is_empty}
use ivckolpak.Alarm.Event.{AlarmEvent}
use ivckolpak.Session.Packet.{AvPacket, packet_of}
use ivckolpak.Session.PreBuffer.{PreBuffer, add_to_pre_buffer}
use ivckolpak.Prelude.Double.{FloatOps}
use ivckolpak.Session.Analyzer.{finalize}
use ivckolpak.Session.State.{
  State, idle, pre_buffer, recording, finalizing, post_buffer, Session, Muxer, Library, OpenReply,
  Moment, RotateReply, CodecParams, StreamInfo,
}
use ivckolpak.Session.Push.{
  push_recording, push_in, count_pushed, push_live, push_locked, finish_push, push_packet,
  max_reasonable_packet_size, kept,
}
use ivckolpak.Session.Muxer.{add_to_post_buffer, finalize_file_io, io_with}
use ivckolpak.Session.Rotate.{
  Pending, finalize_and_rotate, begin_finalize, begin_in, begin_recording, begin_post,
  to_finalizing, complete, end_finalize, end_in, notify,
}
use ivckolpak.Session.Control.{
  start_event, begin_event, continue_event, continue_in, stop_event, stop_in, force_stop,
  force_active, notify_forced, end_force, shutdown, halt, is_active, path_of, has_muxer,
  begin_force,
}
use ivckolpak.Session.Valid.Files.{SameCore, SameFiles, io_with-SameCore}
use ivckolpak.Session.Valid.Push.{push_recording-SameFiles, add_to_post_buffer-SameFiles}
use ivckolpak.Session.Run.{Call, push, start, continue, stop, force, call}

-- The calls without their arguments.
pub data Kind : Type 0 where
  pushing starting continuing stopping forcing halting : Kind

abbrev pub kind : Call → Kind
kind (push now r p) = pushing
kind (start at r evt codec info) = starting
kind (continue evt) = continuing
kind stop = stopping
kind (force ok) = forcing
kind (Call.halt ok) = halting

-- What the design lets each call do with the state.
pub data Edge : Kind → State → State → Type 0 where
  pushed : {s : State} → Edge pushing s s
  tail_written : Edge pushing post_buffer pre_buffer
  alarm : Edge starting pre_buffer recording
  alarm_after_shutdown : Edge starting idle recording
  busy_recording : Edge starting recording recording
  busy_post_buffer : Edge starting post_buffer post_buffer
  busy_finalizing : Edge starting finalizing finalizing
  alarm_again : Edge continuing post_buffer recording
  go_on_recording : Edge continuing recording recording
  go_on_finalizing : Edge continuing finalizing finalizing
  go_on_pre_buffer : Edge continuing pre_buffer pre_buffer
  go_on_idle : Edge continuing idle idle
  alarm_over : Edge stopping recording post_buffer
  over_post_buffer : Edge stopping post_buffer post_buffer
  over_finalizing : Edge stopping finalizing finalizing
  over_pre_buffer : Edge stopping pre_buffer pre_buffer
  over_idle : Edge stopping idle idle
  forced_recording : Edge forcing recording pre_buffer
  forced_post_buffer : Edge forcing post_buffer pre_buffer
  forced_finalizing : Edge forcing finalizing pre_buffer
  not_forced_pre_buffer : Edge forcing pre_buffer pre_buffer
  not_forced_idle : Edge forcing idle idle
  shut : {s : State} → Edge halting s idle

abbrev state_of : Option Session → State
state_of none = idle
state_of (some s) = s.state

-- What a function under the lock leaves keeps the state.
abbrev KeepsState : State → Option (Session × Bool) → Type 0
KeepsState st none = Unit
KeepsState st (some (t, b)) = t.state ≡ st

kept-KeepsState : (s : Session) (o : Option PreBuffer) → KeepsState s.state (kept s o)
unfolding kept
kept-KeepsState s none = tt
kept-KeepsState s (some b) = refl

push_in-KeepsState :
    (lib : Library) (now : ℕ) (p : AvPacket) (st : State) (s : Session)
    → KeepsState s.state (push_in lib now p st s)
unfolding push_in
push_in-KeepsState lib now p idle s = refl
push_in-KeepsState lib now p pre_buffer s = kept-KeepsState s _
push_in-KeepsState lib now p finalizing s = refl
push_in-KeepsState lib now p recording s = (push_recording-SameFiles lib now p s).core.state
push_in-KeepsState lib now p post_buffer s = (add_to_post_buffer-SameFiles lib p s).core.state

choose-KeepsState :
    (b : Bool) (st : State) (o p : Option (Session × Bool))
    → KeepsState st o
    → KeepsState st p
    → KeepsState st (if b then o else p)
choose-KeepsState true st o p k l = k
choose-KeepsState false st o p k l = l

push_live-KeepsState :
    (lib : Library) (now : ℕ) (p : AvPacket) (s : Session)
    → KeepsState s.state (push_live lib now p s)
unfolding push_live count_pushed
push_live-KeepsState lib now p s =
    choose-KeepsState
      (s.shutdown_requested || (p.size == 0 || ltb max_reasonable_packet_size p.size)) s.state _
      (push_in lib now p s.state (count_pushed s)) refl
      (push_in-KeepsState lib now p s.state (count_pushed s))

push_locked-KeepsState :
    (lib : Library) (now : ℕ) (p : Option AvPacket) (s : Session)
    → KeepsState s.state (push_locked lib now p s)
unfolding push_locked
push_locked-KeepsState lib now none s = refl
push_locked-KeepsState lib now (some p) s = push_live-KeepsState lib now p s

notify-state : (p : Pending) (ok : Bool) (s : Session) → (notify p ok s).state ≡ s.state
unfolding notify
notify-state p ok s = ground arith

abbrev pending : State → Session → Pending
pending st s = record { path = s.current_filename; callback = s.cfg.on_video_save; previous = st }

-- The third part of a rotation sets the state.
complete-state :
    (p : Pending) (r : RotateReply) (s : Session) (st : State)
    → ((t : Session) → (end_finalize p r t).state ≡ st)
    → (complete (some p) r s).state ≡ st
unfolding complete
complete-state p r s st h =
    notify-state p (finalize_file_io p.path r.trailer_ok s).1
      (end_finalize p r (finalize_file_io p.path r.trailer_ok s).0)
    ∙ h (finalize_file_io p.path r.trailer_ok s).0

-- A rotation from RECORDING ends there, one from POST_BUFFER ends the event.
rotate_recording-Edge :
    (m : Option Muxer) (r : RotateReply) (s : Session)
    → s.state ≡ recording
    → Edge pushing recording (complete (begin_recording m s).1 r (begin_recording m s).0).state
unfolding begin_recording to_finalizing end_finalize end_in
rotate_recording-Edge none r s e =
    unfold complete in subst (λ x. Edge pushing recording x) (sym e) pushed
rotate_recording-Edge (some m) r s e =
    subst (λ x. Edge pushing recording x)
      (sym (
        complete-state (pending recording s) r (begin_recording (some m) s).0 recording
          (λ t. refl)))
      pushed

rotate_post-Edge :
    (m : Option Muxer) (r : RotateReply) (s : Session)
    → Edge pushing post_buffer (complete (begin_post m s).1 r (begin_post m s).0).state
unfolding begin_post to_finalizing end_finalize end_in
rotate_post-Edge none r s = unfold complete in tail_written
rotate_post-Edge (some m) r s =
    subst (λ x. Edge pushing post_buffer x)
      (sym
        (complete-state (pending post_buffer s) r (begin_post (some m) s).0 pre_buffer (λ t. refl)))
      tail_written

rotate_in-Edge :
    (ops : FloatOps) (st : State) (r : RotateReply) (s : Session)
    → s.state ≡ st
    → Edge pushing st (complete (begin_in ops st s).1 r (begin_in ops st s).0).state
unfolding begin_in
rotate_in-Edge ops recording r s e = rotate_recording-Edge s.out_fmt_ctx r s e
rotate_in-Edge ops post_buffer r s e = rotate_post-Edge s.out_fmt_ctx r _
rotate_in-Edge ops idle r s e = unfold complete in subst (λ x. Edge pushing idle x) (sym e) pushed
rotate_in-Edge ops pre_buffer r s e =
    unfold complete in subst (λ x. Edge pushing pre_buffer x) (sym e) pushed
rotate_in-Edge ops finalizing r s e =
    unfold complete in subst (λ x. Edge pushing finalizing x) (sym e) pushed

finish_push-Edge :
    (lib : Library) (r : RotateReply) (st : State) (o : Option (Session × Bool)) (u : Session)
    → KeepsState st o
    → finish_push lib r o ≡ some u
    → Edge pushing st u.state
unfolding finish_push finalize_and_rotate begin_finalize
finish_push-Edge lib r st none u k e = absurd cc
finish_push-Edge lib r st (some (t, false)) u k e =
    subst (λ x. Edge pushing st x) (sym k ∙ ap state_of e) pushed
finish_push-Edge lib r st (some (t, true)) u k e =
    subst (λ x. Edge pushing st x) (ap state_of e)
      (subst (λ x. Edge pushing x (finalize_and_rotate lib.ops r t).state) k
        (rotate_in-Edge lib.ops t.state r t refl))
