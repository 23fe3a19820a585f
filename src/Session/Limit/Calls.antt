-- ===== src/Session/Limit/Calls.antt =====
-- recording_session.cpp: the number of chunks of an event over a sequence of calls.
use ivckolpak.Prelude.{
  ◌≡◌, refl, Bool, true, false, ◌&&◌, List, [], ◌∷◌, Option, none, some, arith, if◌then◌else◌,
}
use mathlib.Core.Path.{subst}
use ivckolpak.Prelude.Int.{ℤ, ◌≤ℤ◌, is_pos}
use ivckolpak.Prelude.Bytes.{Bytes}
use ivckolpak.Alarm.Event.{AlarmEvent}
use ivckolpak.Session.State.{
  State, idle, pre_buffer, recording, finalizing, post_buffer, SessionConfig, CodecParams,
  StreamInfo, Session, new_session, Library, OpenReply, Moment,
}
use ivckolpak.Session.Muxer.{init_muxer, finalize_file_io}
use ivckolpak.Session.Push.{push_packet}
use ivckolpak.Session.Control.{
  prepare, path_of, has_muxer, begin_event, is_active, start_event, continue_in, continue_event,
  stop_in, stop_event, begin_force, end_force, notify_forced, force_active, force_stop, halt,
  shutdown,
}
use ivckolpak.Session.Valid.Files.{init_muxer-SameCore}
use ivckolpak.Session.Valid.Control.{drain-SameFiles}
use ivckolpak.Session.Run.{Call, push, start, continue, stop, force, call, run, ◌>>=◌}
use ivckolpak.Session.Limit.{
  InLimit, Keeps, along, finalize_file_io-SameCore, push_locked-Fits, finish_push-Keeps,
}

choose-InLimit :
    (max : ℤ) (b : Bool) (s t : Session)
    → InLimit max s
    → InLimit max t
    → InLimit max (if b then s else t)
choose-InLimit max true s t v w = v
choose-InLimit max false s t v w = w

start_event-InLimit :
    (max : ℤ) (lib : Library) (at : Moment) (r : OpenReply) (evt : AlarmEvent)
    (codec : Option CodecParams) (info : StreamInfo) (s : Session)
    → is_pos max ≡ true
    → InLimit max s
    → InLimit max (start_event lib at r evt codec info s)
unfolding start_event begin_event
start_event-InLimit max lib at r evt codec info s m v =
    let ready = prepare at.now evt codec info s in
    let first : InLimit max ready =
      unfold prepare in record { cap = v.cap; index = ground (arith, m) } in
    let opened = init_muxer at.local r codec ready in
    let begun : InLimit max opened = along (init_muxer-SameCore at.local r codec ready) first in
    let drained = along (drain-SameFiles lib s.pre.packets opened).core begun in
    choose-InLimit max (is_active s.state) s _ v
      (record { cap = drained.cap; index = drained.index })

continue_in-InLimit :
    (max : ℤ) (st : State) (evt : AlarmEvent) (s : Session)
    → InLimit max s
    → InLimit max (continue_in st evt s)
unfolding continue_in
continue_in-InLimit max idle evt s v = v
continue_in-InLimit max pre_buffer evt s v = v
continue_in-InLimit max finalizing evt s v = record { cap = v.cap; index = v.index }
continue_in-InLimit max post_buffer evt s v = record { cap = v.cap; index = v.index }
continue_in-InLimit max recording evt s v = record { cap = v.cap; index = v.index }

stop_in-InLimit : (max : ℤ) (st : State) (s : Session) → InLimit max s → InLimit max (stop_in st s)
unfolding stop_in
stop_in-InLimit max recording s v = record { cap = v.cap; index = v.index }
stop_in-InLimit max idle s v = v
stop_in-InLimit max pre_buffer s v = v
stop_in-InLimit max post_buffer s v = v
stop_in-InLimit max finalizing s v = v

notify_forced-InLimit :
    (max : ℤ) (path : Bytes) (b : Bool) (s : Session)
    → InLimit max s
    → InLimit max (notify_forced path b s)
unfolding notify_forced
notify_forced-InLimit max path b s v = record {
  cap = ground (arith, v.cap);
  index = ground (arith, v.index);
}

force_stop-InLimit :
    (max : ℤ) (ok : Bool) (s : Session) → InLimit max s → InLimit max (force_stop ok s)
unfolding force_stop force_active end_force begin_force
force_stop-InLimit max ok s v =
    let path = path_of s.out_fmt_ctx s.current_filename in
    let closed : InLimit max (finalize_file_io path ok (begin_force s)).0 =
      along (finalize_file_io-SameCore path ok (begin_force s))
        (record { cap = v.cap; index = v.index }) in
    choose-InLimit max (is_active s.state) (force_active ok s) s
      (notify_forced-InLimit max path (has_muxer s.out_fmt_ctx && s.cfg.on_video_save)
        (end_force (finalize_file_io path ok (begin_force s)).0)
        (record { cap = closed.cap; index = closed.index }))
      v

shutdown-InLimit : (max : ℤ) (ok : Bool) (s : Session) → InLimit max s → InLimit max (shutdown ok s)
unfolding shutdown halt
shutdown-InLimit max ok s v =
    let path = if is_active s.state then path_of s.out_fmt_ctx s.current_filename else [] in
    let closed : InLimit max (finalize_file_io path ok (halt s)).0 =
      along (finalize_file_io-SameCore path ok (halt s))
        (record { cap = v.cap; index = v.index }) in
    record { cap = closed.cap; index = closed.index }

call-Keeps :
    (max : ℤ) (lib : Library) (c : Call) (s : Session)
    → is_pos max ≡ true
    → InLimit max s
    → Keeps max (call lib c s)
unfolding call push_packet continue_event stop_event
call-Keeps max lib (push now r p) s m v =
    finish_push-Keeps max lib r _ (push_locked-Fits max lib now p s m v)
call-Keeps max lib (start at r evt codec info) s m v =
    start_event-InLimit max lib at r evt codec info s m v
call-Keeps max lib (continue evt) s m v = continue_in-InLimit max s.state evt s v
call-Keeps max lib stop s m v = stop_in-InLimit max s.state s v
call-Keeps max lib (force ok) s m v = force_stop-InLimit max ok s v
call-Keeps max lib (Call.halt ok) s m v = shutdown-InLimit max ok s v

then-Keeps :
    (max : ℤ) (o : Option Session) (f : Session → Option Session)
    → Keeps max o
    → ((t : Session) → InLimit max t → Keeps max (f t))
    → Keeps max (o >>= f)
then-Keeps max none f k h = tt
then-Keeps max (some t) f k h = h t k

run-Keeps :
    (max : ℤ) (lib : Library) (cs : List Call) (s : Session)
    → is_pos max ≡ true
    → InLimit max s
    → Keeps max (run lib cs s)
unfolding run
run-Keeps max lib [] s m v = v
run-Keeps max lib (c ∷ cs) s m v =
    then-Keeps max (call lib c s) (λ t. run lib cs t) (call-Keeps max lib c s m v)
      (λ t w. run-Keeps max lib cs t m w)

-- Where `max_event_chunks` is positive, `chunk_idx` is at most `max_event_chunks` after every sequence of calls
-- that returns, from a new session on, whatever FFmpeg and the clocks return.
pub chunk_idx_bounded :
    (lib : Library) (cfg : SessionConfig) (cs : List Call) (t : Session)
    → is_pos cfg.camera_cfg.max_event_chunks ≡ true
    → run lib cs (new_session cfg) ≡ some t
    → t.chunk_idx ≤ℤ cfg.camera_cfg.max_event_chunks
chunk_idx_bounded lib cfg cs t m e =
    let max = cfg.camera_cfg.max_event_chunks in
    let first : InLimit max (new_session cfg) =
      unfold new_session in record { cap = refl; index = ground (arith, m) } in
    (subst (Keeps max) e (run-Keeps max lib cs (new_session cfg) m first)).index
