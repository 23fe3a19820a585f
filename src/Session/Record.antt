-- ===== src/Session/Record.antt =====
-- recording_session.cpp: what `start_event` writes to the file.
use ivckolpak.Prelude.{
  ℕ, ◌≡◌, refl, sym, ◌∙◌, ap, List, [], ◌∷◌, ◌++◌, append-nil, append_assoc, true, false, Option,
  none, some, arith, if◌then◌else◌,
}
use mathlib.Core.Path.{subst}
use ivckolpak.Alarm.Event.{AlarmEvent}
use ivckolpak.Session.Packet.{AvPacket, Packet}
use ivckolpak.Session.Analyzer.{Rational, StreamAnalyzer, analyze_packet}
use ivckolpak.Session.PreBuffer
use ivckolpak.Session.State.{
  recording, CodecParams, StreamInfo, Muxer, Effect, opened, wrote, Session, Library, OpenReply,
  Moment,
}
use ivckolpak.Session.Muxer.{
  outgoing, next_filename, init_muxer, open_muxer, write_with, write_packet_to_file,
}
use ivckolpak.Session.Control.{
  drain_live, drain_packet, drain, prepare, begin_event, is_active, start_event,
}

analyze-time_base :
    (p : Option AvPacket) (a : StreamAnalyzer) → (analyze_packet p a).time_base ≡ a.time_base
unfolding analyze_packet
analyze-time_base none a = refl
analyze-time_base (some p) a = ground arith

-- What a write does to a session with an output file.
record Writes (m : Muxer) (es : List Effect) (s t : Session) : Type 0 where
  effects : t.effects ≡ s.effects ++ es
  out_fmt_ctx : t.out_fmt_ctx ≡ some m
  time_base : t.analyzer.time_base ≡ s.analyzer.time_base
  current_filename : t.current_filename ≡ s.current_filename
  state : t.state ≡ s.state

write_packet_to_file-Writes :
    (lib : Library) (m : Muxer) (a : AvPacket) (s : Session)
    → s.out_fmt_ctx ≡ some m
    → Writes m
        (wrote m.path (outgoing lib m s.analyzer.time_base a) ∷ [])
        s
        (write_packet_to_file lib (some a) s)
write_packet_to_file-Writes lib m a s e =
    unfold write_packet_to_file write_with in
    subst
      (λ k.
        Writes m (wrote m.path (outgoing lib m s.analyzer.time_base a) ∷ []) s
          (write_with lib k a s))
      (sym e)
      (record {
        effects = refl;
        out_fmt_ctx = e;
        time_base = refl;
        current_filename = refl;
        state = refl;
      })

Writes-trans :
    {m : Muxer} {es fs : List Effect} {s t u : Session}
    → Writes m es s t
    → Writes m fs t u
    → Writes m (es ++ fs) s u
Writes-trans {es = es} {fs = fs} {s = s} v w = record {
  effects = w.effects ∙ ap (λ x. x ++ fs) v.effects ∙ append_assoc s.effects es fs;
  out_fmt_ctx = w.out_fmt_ctx;
  time_base = w.time_base ∙ v.time_base;
  current_filename = w.current_filename ∙ v.current_filename;
  state = w.state ∙ v.state;
}

-- What one packet of the pre-buffer makes.
abbrev pub written_one : Library → Muxer → Rational → Option AvPacket → List Effect
written_one lib m base none = []
written_one lib m base (some a) = wrote m.path (outgoing lib m base a) ∷ []

drain_live-Writes :
    (lib : Library) (m : Muxer) (k : Option AvPacket) (size : ℕ) (s : Session)
    → s.out_fmt_ctx ≡ some m
    → Writes m (written_one lib m s.analyzer.time_base k) s (drain_live lib k size s)
drain_live-Writes lib m none size s e =
    unfold drain_live in
    record {
      effects = sym (append-nil s.effects);
      out_fmt_ctx = e;
      time_base = refl;
      current_filename = refl;
      state = refl;
    }
drain_live-Writes lib m (some a) size s e =
    let t = record s { analyzer = analyze_packet (some a) s.analyzer } in
    let same = analyze-time_base (some a) s.analyzer in
    let w = write_packet_to_file-Writes lib m a t e in
    unfold drain_live in
    record {
      effects = w.effects ∙ ap (λ b. s.effects ++ wrote m.path (outgoing lib m b a) ∷ []) same;
      out_fmt_ctx = w.out_fmt_ctx;
      time_base = w.time_base ∙ same;
      current_filename = w.current_filename;
      state = w.state;
    }

-- The packets of the list that are not null, as they go to the muxer.
abbrev pub written : Library → Muxer → Rational → List Packet → List Effect
written lib m base [] = []
written lib m base (p ∷ ps) = written_one lib m base p.pkt ++ written lib m base ps

drain-Writes :
    (lib : Library) (m : Muxer) (ps : List Packet) (s : Session)
    → s.out_fmt_ctx ≡ some m
    → Writes m (written lib m s.analyzer.time_base ps) s (drain lib ps s)
unfolding drain drain_packet
drain-Writes lib m [] s e = record {
  effects = sym (append-nil s.effects);
  out_fmt_ctx = e;
  time_base = refl;
  current_filename = refl;
  state = refl;
}
drain-Writes lib m (p ∷ ps) s e =
    let t = drain_live lib p.pkt p.size s in
    let w = drain_live-Writes lib m p.pkt p.size s e in
    let rest = drain-Writes lib m ps t w.out_fmt_ctx in
    subst
      (λ b.
        Writes m (written_one lib m s.analyzer.time_base p.pkt ++ written lib m b ps) s
          (drain lib ps t))
      w.time_base (Writes-trans w rest)

-- What `init_muxer` opens where all calls of FFmpeg succeed.
abbrev pub opened_muxer : OpenReply → CodecParams → Session → Muxer
opened_muxer r codec s = record {
  path = s.current_filename;
  has_pb = true;
  codecpar = codec;
  time_base = r.time_base;
  avg_frame_rate = s.stored_frame_rate;
}

abbrev pub Succeeds : OpenReply → Type 0
Succeeds r = (r.alloc_ok ≡ true) × (r.open_ok ≡ true) × (r.stream_ok ≡ true) × (r.header_ok ≡ true)

open_muxer-Writes :
    (r : OpenReply) (codec : CodecParams) (s : Session)
    → Succeeds r
    → Writes (opened_muxer r codec s) (opened s.current_filename ∷ []) s (open_muxer r codec s)
unfolding open_muxer
open_muxer-Writes r codec s h =
    rw (h.0, h.1, h.2, h.3)
      (record {
        effects = refl;
        out_fmt_ctx = refl;
        time_base = refl;
        current_filename = refl;
        state = refl;
      })

-- What an event that starts with a working muxer leaves.
pub record Starts (lib : Library) (base : Rational) (s t : Session) : Type 0 where
  pub state : t.state ≡ recording
  pub pre : t.pre ≡ PreBuffer.empty
  pub muxer :
      (m : Muxer) × (t.out_fmt_ctx ≡ some m)
      × (m.path ≡ t.current_filename)
      × (t.effects ≡ s.effects ++ opened t.current_filename ∷ written lib m base s.pre.packets)

begin_event-Starts :
    (lib : Library) (at : Moment) (r : OpenReply) (evt : AlarmEvent) (codec : CodecParams)
    (info : StreamInfo) (s : Session)
    → Succeeds r
    → Starts lib
        (if info.valid then info.time_base else s.stored_time_base)
        s
        (begin_event lib at r evt (some codec) info s)
begin_event-Starts lib at r evt codec info s h =
    let ready = prepare at.now evt (some codec) info s in
    let named = record ready { current_filename = next_filename at.local ready } in
    let m = opened_muxer r codec named in
    let o = open_muxer-Writes r codec named h in
    let t = open_muxer r codec named in
    let w = drain-Writes lib m s.pre.packets t o.out_fmt_ctx in
    unfold begin_event init_muxer in
    record {
      state = refl;
      pre = refl;
      muxer = (
        m,
        w.out_fmt_ctx,
        sym (w.current_filename ∙ o.current_filename),
        w.effects
            ∙ ap (λ x. x ++ written lib m t.analyzer.time_base s.pre.packets) o.effects
            ∙ append_assoc s.effects (opened named.current_filename ∷ [])
                (written lib m t.analyzer.time_base s.pre.packets)
            ∙ ap (λ b. s.effects ++ opened named.current_filename ∷ written lib m b s.pre.packets)
                o.time_base
            ∙ ap (λ f. s.effects ++ opened f ∷ written lib m named.analyzer.time_base s.pre.packets)
                (sym (w.current_filename ∙ o.current_filename)),
      );
    }

-- When `start_event` finds no event in progress and every call of FFmpeg succeeds, the session is in
-- RECORDING with an empty pre-buffer; one file was opened, under the current name, and all packets of the
-- pre-buffer were written to it, in their order, and nothing else was done.
pub start_event_records :
    (lib : Library) (at : Moment) (r : OpenReply) (evt : AlarmEvent) (codec : CodecParams)
    (info : StreamInfo) (s : Session)
    → is_active s.state ≡ false
    → Succeeds r
    → Starts lib
        (if info.valid then info.time_base else s.stored_time_base)
        s
        (start_event lib at r evt (some codec) info s)
start_event_records lib at r evt codec info s out h =
    unfold start_event in rw out (begin_event-Starts lib at r evt codec info s h)
