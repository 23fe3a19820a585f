-- ===== src/Session/Valid/Push.antt =====
-- recording_session.cpp: the invariant of a session over `push_packet`.
use ivckolpak.Prelude.{
  ℕ, ◌≤◌, ◌≡◌, refl, sym, ◌∙◌, ap, ◌||◌, [], ◌∷◌, ◌++◌, Bool, true, false, Option, none, some,
  arith, if◌then◌else◌, Bool-cases, inl, inr, ltb, ◌==◌,
}
use mathlib.Core.Path.{subst}
use ivckolpak.Prelude.Int.{ℤ, pos, negsuc, ◌≤ℤ◌, ◌+ℤ◌}
use ivckolpak.Session.Packet.{AvPacket, packet_of}
use ivckolpak.Session.PreBuffer.{PreBuffer, add_to_pre_buffer}
use ivckolpak.Session.PreBuffer.Sync.{InSync}
use ivckolpak.Session.PreBuffer.Limits.{IsBounded, Keeps}
use ivckolpak.Session.PreBuffer.Add.{add_to_pre_buffer_total}
use ivckolpak.Session.State.{
  State, idle, pre_buffer, recording, finalizing, post_buffer, dropped, Session, emit, Library,
  RotateReply,
}
use ivckolpak.Session.Muxer.{add_to_post_buffer}
use ivckolpak.Session.Push.{
  push_recording, push_in, count_pushed, push_live, push_locked, finish_push, push_packet,
  max_reasonable_packet_size, kept,
}
use ivckolpak.Session.Analyzer.{analyze_packet}
use ivckolpak.Session.Valid.{Phase, IsValid, opens-append, closes-append}
use ivckolpak.Session.Valid.Files.{SameFiles, SameFiles-FilesOk, write_packet_to_file-SameFiles}
use ivckolpak.Session.Valid.Rotate.Whole.{finalize_and_rotate-IsValid}

SameFiles-Phase : {s t : Session} (st : State) → SameFiles s t → Phase st s → Phase st t
SameFiles-Phase idle w h = w.out_fmt_ctx ∙ h
SameFiles-Phase pre_buffer w h =
    (w.out_fmt_ctx ∙ h.0, rw w.core.pre h.1, rw (w.core.pre, w.core.cfg) h.2)
SameFiles-Phase recording w h = w.core.pre ∙ h
SameFiles-Phase post_buffer w h = w.core.pre ∙ h
SameFiles-Phase finalizing w h = h

pub SameFiles-IsValid : {s t : Session} → SameFiles s t → IsValid s → IsValid t
SameFiles-IsValid {s} {t} w v =
    let files = SameFiles-FilesOk w (record { muxer = v.muxer; balanced = v.balanced }) in
    record {
      limit = rw w.core.cfg v.limit;
      phase = subst (λ st. Phase st t) (sym w.core.state) (SameFiles-Phase s.state w v.phase);
      muxer = files.muxer;
      balanced = files.balanced;
    }

-- `t` has the fields of `s` that `SameFiles` speaks of, by computation.
pub emit_dropped-SameFiles : (p : AvPacket) (s : Session) → SameFiles s (emit (dropped p) s)
emit_dropped-SameFiles p s = record {
  core = record { cfg = refl; state = refl; pre = refl; chunk_idx = refl };
  out_fmt_ctx = refl;
  current_filename = refl;
  out_stream = refl;
  opened_same = omega (arith, opens-append s.effects (dropped p ∷ []));
  closed_same = omega (arith, closes-append s.effects (dropped p ∷ []));
}

count_pushed-SameFiles : (s : Session) → SameFiles s (count_pushed s)
unfolding count_pushed
count_pushed-SameFiles s = record {
  core = record { cfg = refl; state = refl; pre = refl; chunk_idx = refl };
  out_fmt_ctx = refl;
  current_filename = refl;
  out_stream = refl;
  opened_same = refl;
  closed_same = refl;
}

pub push_recording-SameFiles :
    (lib : Library) (now : ℕ) (p : AvPacket) (s : Session)
    → SameFiles s (push_recording lib now p s).0
push_recording-SameFiles lib now p s =
    let w =
      write_packet_to_file-SameFiles lib (some p)
        (record s { analyzer = analyze_packet (some p) s.analyzer }) in
    unfold push_recording in
    record {
      core = record {
        cfg = w.core.cfg;
        state = w.core.state;
        pre = w.core.pre;
        chunk_idx = w.core.chunk_idx;
      };
      out_fmt_ctx = w.out_fmt_ctx;
      current_filename = w.current_filename;
      out_stream = w.out_stream;
      opened_same = w.opened_same;
      closed_same = w.closed_same;
    }

pub add_to_post_buffer-SameFiles :
    (lib : Library) (p : AvPacket) (s : Session)
    → SameFiles s (add_to_post_buffer lib (packet_of (some p)) s).0
add_to_post_buffer-SameFiles lib p s =
    let w = write_packet_to_file-SameFiles lib (some p) (record s {
      post_buffer_iframe_count =
          if p.is_key then s.post_buffer_iframe_count +ℤ pos 1 else s.post_buffer_iframe_count;
      analyzer = analyze_packet (some p) s.analyzer;
    }) in
    unfold add_to_post_buffer packet_of in
    record {
      core = record {
        cfg = w.core.cfg;
        state = w.core.state;
        pre = w.core.pre;
        chunk_idx = w.core.chunk_idx;
      };
      out_fmt_ctx = w.out_fmt_ctx;
      current_filename = w.current_filename;
      out_stream = w.out_stream;
      opened_same = w.opened_same;
      closed_same = w.closed_same;
    }

-- What a call that returns leaves.
abbrev Returns : Option (Session × Bool) → Type 0
Returns r = (t : Session) × (b : Bool) × (r ≡ some (t, b)) × IsValid t

Returns-same :
    {s : Session} (t : Session) (b : Bool) → IsValid s → SameFiles s t → Returns (some (t, b))
Returns-same t b v w = (t, b, refl, SameFiles-IsValid w v)

nonneg : (z : ℤ) → pos 0 ≤ℤ z → (n : ℕ) × (z ≡ pos n)
nonneg (pos n) h = (n, refl)
nonneg (negsuc n) h = absurd (omega arith)

pub at_pre : (s : Session) → s.state ≡ pre_buffer → Phase s.state s → Phase pre_buffer s
at_pre s e h = rw e at h

add_returns :
    (n : ℕ) (limit : ℤ) (p : AvPacket) (b : PreBuffer)
    → limit ≡ pos n
    → p.size ≤ max_reasonable_packet_size
    → InSync b
    → IsBounded limit b
    → (c : PreBuffer) × (add_to_pre_buffer limit (packet_of (some p)) b ≡ some c)
      × Keeps limit (b.packets ++ packet_of (some p) ∷ []) c
add_returns n limit p b e size s d =
    subst
      (λ z.
        IsBounded z b
        → (c : PreBuffer) × (add_to_pre_buffer z (packet_of (some p)) b ≡ some c)
          × Keeps z (b.packets ++ packet_of (some p) ∷ []) c)
      (sym e)
      (add_to_pre_buffer_total n (packet_of (some p)) p b (unfold packet_of in refl)
        (unfold packet_of in size) s)
      d

kept-Returns :
    (n : ℕ) (p : AvPacket) (s : Session)
    → s.cfg.pre_buffer_iframes ≡ pos n
    → p.size ≤ max_reasonable_packet_size
    → s.state ≡ pre_buffer
    → IsValid s
    → Returns (kept s (add_to_pre_buffer s.cfg.pre_buffer_iframes (packet_of (some p)) s.pre))
kept-Returns n p s e size st v =
    let (free, synced, bounded) = at_pre s st v.phase in
    let (b, ends, k) = add_returns n s.cfg.pre_buffer_iframes p s.pre e size synced bounded in
    (
      record s { pre = b },
      false,
      ap (kept s) ends ∙ (unfold kept in refl),
      record {
        limit = v.limit;
        phase = subst (λ x. Phase x (record s { pre = b })) (sym st) (free, k.synced, k.bounded);
        muxer = v.muxer;
        balanced = v.balanced;
      },
    )

push_in-Returns :
    (lib : Library) (now : ℕ) (p : AvPacket) (st : State) (s : Session)
    → s.state ≡ st
    → p.size ≤ max_reasonable_packet_size
    → IsValid s
    → Returns (push_in lib now p st s)
push_in-Returns lib now p idle s e size v =
    unfold push_in in Returns-same _ _ v (emit_dropped-SameFiles p s)
push_in-Returns lib now p pre_buffer s e size v =
    let (n, l) = nonneg s.cfg.pre_buffer_iframes v.limit in
    unfold push_in in kept-Returns n p s l size e v
push_in-Returns lib now p recording s e size v =
    unfold push_in in Returns-same _ _ v (push_recording-SameFiles lib now p s)
push_in-Returns lib now p post_buffer s e size v =
    unfold push_in in Returns-same _ _ v (add_to_post_buffer-SameFiles lib p s)
push_in-Returns lib now p finalizing s e size v =
    unfold push_in in Returns-same _ _ v (emit_dropped-SameFiles p s)

push_live-Returns :
    (lib : Library) (now : ℕ) (p : AvPacket) (s : Session)
    → IsValid s
    → Returns (push_live lib now p s)
push_live-Returns lib now p s v =
    elim (Bool-cases
      (s.shutdown_requested || (p.size == 0 || ltb max_reasonable_packet_size p.size))) [
        | inl refused ↦
            unfold push_live in rw refused (Returns-same _ _ v (emit_dropped-SameFiles p s))
        | inr taken ↦
            unfold push_live in
            rw taken (
              push_in-Returns lib now p s.state (count_pushed s) (unfold count_pushed in refl)
                (ground (arith, taken)) (SameFiles-IsValid (count_pushed-SameFiles s) v))
      ]

push_locked-Returns :
    (lib : Library) (now : ℕ) (p : Option AvPacket) (s : Session)
    → IsValid s
    → Returns (push_locked lib now p s)
push_locked-Returns lib now none s v = (s, false, unfold push_locked in refl, v)
push_locked-Returns lib now (some p) s v = unfold push_locked in push_live-Returns lib now p s v

finish_returns :
    (lib : Library) (r : RotateReply) (t : Session) (b : Bool)
    → IsValid t
    → (u : Session) × (finish_push lib r (some (t, b)) ≡ some u) × IsValid u
unfolding finish_push
finish_returns lib r t false v = (t, refl, v)
finish_returns lib r t true v = (_, refl, finalize_and_rotate-IsValid lib.ops r t v)

-- `push_packet` returns on every packet, or none, in every valid session, and leaves it valid,
-- whatever FFmpeg returns.
pub push_packet_total :
    (lib : Library) (now : ℕ) (r : RotateReply) (p : Option AvPacket) (s : Session)
    → IsValid s
    → (u : Session) × (push_packet lib now r p s ≡ some u) × IsValid u
push_packet_total lib now r p s v =
    let (t, b, e, w) = push_locked-Returns lib now p s v in
    let (u, f, x) = finish_returns lib r t b w in
    (u, unfold push_packet in ap (finish_push lib r) e ∙ f, x)
