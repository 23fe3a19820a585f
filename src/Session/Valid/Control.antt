-- ===== src/Session/Valid/Control.antt =====
-- recording_session.cpp: the invariant of a session over the calls that start, continue and end an event.
pub mod End
use mathlib.Core.Path.{subst}
use ivckolpak.Prelude.{
  ℕ, ◌≡◌, refl, sym, ◌∙◌, List, [], ◌∷◌, ◌++◌, Bool, true, false, not, ◌&&◌, Option, none, some,
  arith, if◌then◌else◌, Bool-cases, inl, inr,
}
use ivckolpak.Prelude.Int.{pos, ◌≤ℤ◌}
use ivckolpak.Prelude.Bytes.{Bytes, is_empty}
use ivckolpak.Alarm.Event.{AlarmEvent}
use ivckolpak.Session.Packet.{AvPacket, Packet}
use ivckolpak.Session.PreBuffer
use ivckolpak.Session.PreBuffer.{PreBuffer}
use ivckolpak.Session.State.{
  State, idle, pre_buffer, recording, finalizing, post_buffer, CodecParams, StreamInfo, Muxer,
  notified, Session, Library, OpenReply, Moment,
}
use ivckolpak.Session.Muxer.{init_muxer, finalize_file_io}
use ivckolpak.Session.Analyzer.{analyze_packet}
use ivckolpak.Session.Control.{
  drain_live, drain_packet, drain, begin_force, end_force, notify_forced, halt, prepare,
  begin_event, is_active, start_event, continue_in, continue_event, stop_in, stop_event, path_of,
  has_muxer, force_active, force_stop, shutdown,
}
use ivckolpak.Session.Valid.{
  Phase, MuxerOk, IsBalanced, IsValid, opens, closes, opens-append, closes-append,
}
use ivckolpak.Session.Valid.Files.{
  SameCore, SameFiles, SameFiles-FilesOk, SameFiles-refl, SameFiles-trans,
  write_packet_to_file-SameFiles, init_muxer-SameCore, init_muxer-FilesOk, io_balanced,
  io_with-SameCore,
}
use ivckolpak.Session.Valid.Rotate.{
  empty-InSync, empty-IsBounded, in_recording, in_post, Phase-effects,
}

drain_live-SameFiles :
    (lib : Library) (k : Option AvPacket) (size : ℕ) (s : Session)
    → SameFiles s (drain_live lib k size s)
drain_live-SameFiles lib none size s = unfold drain_live in SameFiles-refl s
drain_live-SameFiles lib (some a) size s =
    let w =
      write_packet_to_file-SameFiles lib (some a)
        (record s { analyzer = analyze_packet (some a) s.analyzer }) in
    unfold drain_live in
    record {
      core = record {
        cfg = w.core.cfg;
        state = w.core.state;
        pre = w.core.pre;
        chunk_idx = w.core.chunk_idx;
      };
      out_fmt_ctx = w.out_fmt_ctx;
      current_filename = w.current_filename;
      out_stream = w.out_stream;
      opened_same = w.opened_same;
      closed_same = w.closed_same;
    }

pub drain-SameFiles :
    (lib : Library) (ps : List Packet) (s : Session) → SameFiles s (drain lib ps s)
unfolding drain drain_packet
drain-SameFiles lib [] s = SameFiles-refl s
drain-SameFiles lib (p ∷ ps) s =
    SameFiles-trans (drain_live-SameFiles lib p.pkt p.size s)
      (drain-SameFiles lib ps (drain_packet lib p s))

-- Outside an event no file is open.
closed_outside : (s : Session) → is_active s.state ≡ false → Phase s.state s → s.out_fmt_ctx ≡ none
closed_outside s e h = by_state s.state e h
  where
    by_state : (st : State) → is_active st ≡ false → Phase st s → s.out_fmt_ctx ≡ none
    by_state idle e h = h
    by_state pre_buffer e h = h.0
    by_state recording e h = cc
    by_state finalizing e h = cc
    by_state post_buffer e h = cc

begin_event-IsValid :
    (lib : Library) (at : Moment) (r : OpenReply) (evt : AlarmEvent) (codec : Option CodecParams)
    (info : StreamInfo) (s : Session)
    → is_active s.state ≡ false
    → IsValid s
    → IsValid (begin_event lib at r evt codec info s)
begin_event-IsValid lib at r evt codec info s out v =
    let ready = prepare at.now evt codec info s in
    let free = closed_outside s out v.phase in
    let core = init_muxer-SameCore at.local r codec ready in
    let files =
      init_muxer-FilesOk at.local r codec ready (unfold prepare in free)
        (unfold prepare in v.balanced) in
    let drained = drain-SameFiles lib s.pre.packets (init_muxer at.local r codec ready) in
    let done = SameFiles-FilesOk drained files in
    unfold begin_event in
    record {
      limit = rw (drained.core.cfg, core.cfg) (unfold prepare in v.limit);
      phase = refl;
      muxer = done.muxer;
      balanced = done.balanced;
    }

-- `start_event` keeps the session valid, whether or not the file can be opened.
pub start_event-IsValid :
    (lib : Library) (at : Moment) (r : OpenReply) (evt : AlarmEvent) (codec : Option CodecParams)
    (info : StreamInfo) (s : Session)
    → IsValid s
    → IsValid (start_event lib at r evt codec info s)
start_event-IsValid lib at r evt codec info s v = elim (Bool-cases (is_active s.state)) [
  | inl busy ↦ unfold start_event in rw busy v
  | inr out ↦ unfold start_event in rw out (begin_event-IsValid lib at r evt codec info s out v)
]

continue_in-IsValid :
    (st : State) (evt : AlarmEvent) (s : Session)
    → s.state ≡ st
    → IsValid s
    → IsValid (continue_in st evt s)
unfolding continue_in
continue_in-IsValid idle evt s e v = v
continue_in-IsValid pre_buffer evt s e v = v
continue_in-IsValid post_buffer evt s e v = record {
  limit = v.limit;
  phase = in_post s e v.phase;
  muxer = v.muxer;
  balanced = v.balanced;
}
continue_in-IsValid recording evt s e v = record {
  limit = v.limit;
  phase =
      subst (λ x. Phase x (record s { current_event = some evt })) (sym e)
        (in_recording s e v.phase);
  muxer = v.muxer;
  balanced = v.balanced;
}
continue_in-IsValid finalizing evt s e v = absurd (subst (λ x. Phase x s) e v.phase)

pub continue_event-IsValid :
    (evt : AlarmEvent) (s : Session) → IsValid s → IsValid (continue_event evt s)
unfolding continue_event
continue_event-IsValid evt s v = continue_in-IsValid s.state evt s refl v

stop_in-IsValid : (st : State) (s : Session) → s.state ≡ st → IsValid s → IsValid (stop_in st s)
unfolding stop_in
stop_in-IsValid recording s e v = record {
  limit = v.limit;
  phase = in_recording s e v.phase;
  muxer = v.muxer;
  balanced = v.balanced;
}
stop_in-IsValid idle s e v = v
stop_in-IsValid pre_buffer s e v = v
stop_in-IsValid post_buffer s e v = v
stop_in-IsValid finalizing s e v = v

pub stop_event-IsValid : (s : Session) → IsValid s → IsValid (stop_event s)
unfolding stop_event
stop_event-IsValid s v = stop_in-IsValid s.state s refl v
