-- ===== src/Session/Limit.antt =====
-- recording_session.cpp: the number of chunks of an event over a push and its rotation.
pub mod Calls
use ivckolpak.Prelude.{
  ℕ, ◌≡◌, refl, sym, ◌∙◌, ap, Bool, true, false, not, ◌&&◌, ◌||◌, List, [], ◌∷◌, Option, none, some,
  arith, if◌then◌else◌, ltb, ◌==◌, Bool-cases, inl, inr,
}
use mathlib.Core.Path.{subst}
use ivckolpak.Prelude.Int.{ℤ, pos, ◌+ℤ◌, ◌≤ℤ◌, is_pos, leb_ℤ}
use ivckolpak.Prelude.Bytes.{Bytes, is_empty}
use ivckolpak.Prelude.Double.{FloatOps}
use ivckolpak.Alarm.Event.{AlarmEvent}
use ivckolpak.Session.Packet.{AvPacket}
use ivckolpak.Session.PreBuffer.{PreBuffer}
use ivckolpak.Session.State.{
  State, idle, pre_buffer, recording, finalizing, post_buffer, SessionConfig, CodecParams,
  StreamInfo, Muxer, Session, emit, dropped, new_session, Library, OpenReply, Moment, RotateReply,
}
use ivckolpak.Session.Muxer.{init_muxer, finalize_file_io, io_with}
use ivckolpak.Session.Rotate.{
  Pending, apply_rate, to_finalizing, begin_recording, begin_post, begin_in, begin_finalize,
  next_chunk, end_in, end_finalize, notify, complete, finalize_and_rotate,
}
use ivckolpak.Session.Push.{
  count_hit, chunk_limit_reached, push_recording, kept, push_in, count_pushed, push_live,
  push_locked, finish_push, push_packet, max_reasonable_packet_size,
}
use ivckolpak.Session.Control.{
  prepare, drain, path_of, has_muxer, begin_event, is_active, start_event, continue_in,
  continue_event, stop_in, stop_event, begin_force, end_force, notify_forced, force_active,
  force_stop, halt, shutdown,
}
use ivckolpak.Session.Chunks.{chunk_limit_reached_lem}
use ivckolpak.Session.Valid.Files.{SameCore, init_muxer-SameCore, io_with-SameCore}
use ivckolpak.Session.Valid.Push.{push_recording-SameFiles, add_to_post_buffer-SameFiles}
use ivckolpak.Session.Valid.Control.{drain-SameFiles}
use ivckolpak.Session.Run.{Call, push, start, continue, stop, force, call, run, ◌>>=◌}

-- The limit of the camera is `max`, and the number of the chunk is not above it.
pub record InLimit (max : ℤ) (s : Session) : Type 0 where
  pub cap : s.cfg.camera_cfg.max_event_chunks ≡ max
  pub index : s.chunk_idx ≤ℤ max

pub along : {max : ℤ} {s t : Session} → SameCore s t → InLimit max s → InLimit max t
along {max} c v = record {
  cap = ap (λ x. x.camera_cfg.max_event_chunks) c.cfg ∙ v.cap;
  index = subst (λ n. n ≤ℤ max) (sym c.chunk_idx) v.index;
}

pub finalize_file_io-SameCore :
    (path : Bytes) (ok : Bool) (s : Session) → SameCore s (finalize_file_io path ok s).0
unfolding finalize_file_io
finalize_file_io-SameCore path ok s =
    let both = λ (b : Bool). (if b then (s, false) else io_with path ok s.out_fmt_ctx s) in
    elim (Bool-cases (is_empty path)) [
      | inl h ↦
          subst (λ b. SameCore s (both b).0) (sym h)
            (record { cfg = refl; state = refl; pre = refl; chunk_idx = refl })
      | inr h ↦
          subst (λ b. SameCore s (both b).0) (sym h) (io_with-SameCore path ok s.out_fmt_ctx s)
    ]

-- The third part of a rotation: one more chunk, if the rotation is from RECORDING.
end_in-InLimit :
    (max : ℤ) (st : State) (r : RotateReply) (s : Session)
    → InLimit max s
    → (st ≡ recording → s.chunk_idx +ℤ pos 1 ≤ℤ max)
    → InLimit max (end_in st r s)
unfolding end_in next_chunk
end_in-InLimit max recording r s v h =
    let c = init_muxer-SameCore r.moment.local r.reopen s.stored_codec_params (record s {
      chunk_idx = s.chunk_idx +ℤ pos 1;
      chunk_bytes = 0;
      event_start_time = r.moment.now;
    }) in
    record {
      cap = ap (λ x. x.camera_cfg.max_event_chunks) c.cfg ∙ v.cap;
      index = subst (λ n. n ≤ℤ max) (sym c.chunk_idx) (h refl);
    }
end_in-InLimit max post_buffer r s v h = record { cap = v.cap; index = v.index }
end_in-InLimit max idle r s v h = v
end_in-InLimit max pre_buffer r s v h = v
end_in-InLimit max finalizing r s v h = v

notify-InLimit :
    (max : ℤ) (p : Pending) (ok : Bool) (s : Session) → InLimit max s → InLimit max (notify p ok s)
unfolding notify
notify-InLimit max p ok s v = record {
  cap = ground (arith, v.cap);
  index = ground (arith, v.index);
}

complete-InLimit :
    (max : ℤ) (p : Pending) (r : RotateReply) (s : Session)
    → InLimit max s
    → (p.previous ≡ recording → s.chunk_idx +ℤ pos 1 ≤ℤ max)
    → InLimit max (complete (some p) r s)
unfolding complete end_finalize
complete-InLimit max p r s v h =
    let c = finalize_file_io-SameCore p.path r.trailer_ok s in
    let w : InLimit max (finalize_file_io p.path r.trailer_ok s).0 = along c v in
    notify-InLimit max p _ _ (
      end_in-InLimit max p.previous r _ (record { cap = w.cap; index = w.index })
        (λ e. subst (λ n. n +ℤ pos 1 ≤ℤ max) (sym c.chunk_idx) (h e)))

below_limit :
    (max n : ℤ) → is_pos max ≡ true → (is_pos max && leb_ℤ max n) ≡ false → n +ℤ pos 1 ≤ℤ max
unfolding ◌+ℤ◌
below_limit max n p h = ground arith

count_hit-below :
    (max : ℤ) (s : Session)
    → is_pos max ≡ true
    → InLimit max s
    → count_hit s ≡ false
    → s.chunk_idx +ℤ pos 1 ≤ℤ max
unfolding count_hit
count_hit-below max s p v h =
    below_limit max s.chunk_idx p (ap (λ m. is_pos m && leb_ℤ m s.chunk_idx) (sym v.cap) ∙ h)

apply_rate-InLimit : (max : ℤ) (s : Session) → InLimit max s → InLimit max (apply_rate s)
unfolding apply_rate
apply_rate-InLimit max s v = record { cap = ground (arith, v.cap); index = ground (arith, v.index) }

apply_rate-index : (s : Session) → (apply_rate s).chunk_idx ≡ s.chunk_idx
unfolding apply_rate
apply_rate-index s = ground arith

-- A rotation that the limit allows, where it is from RECORDING.
abbrev pub MayRotate : ℤ → Session → Type 0
MayRotate max s = s.state ≡ recording → s.chunk_idx +ℤ pos 1 ≤ℤ max

rotate_recording-InLimit :
    (max : ℤ) (m : Option Muxer) (r : RotateReply) (s : Session)
    → InLimit max s
    → s.chunk_idx +ℤ pos 1 ≤ℤ max
    → InLimit max (complete (begin_recording m s).1 r (begin_recording m s).0)
unfolding begin_recording to_finalizing
rotate_recording-InLimit max none r s v h = unfold complete in v
rotate_recording-InLimit max (some m) r s v h =
    let t = record s { state = finalizing } in
    complete-InLimit max _ r (apply_rate t)
      (apply_rate-InLimit max t (record { cap = v.cap; index = v.index }))
      (λ e. subst (λ n. n +ℤ pos 1 ≤ℤ max) (sym (apply_rate-index t)) h)

rotate_post-InLimit :
    (max : ℤ) (m : Option Muxer) (r : RotateReply) (s : Session)
    → InLimit max s
    → InLimit max (complete (begin_post m s).1 r (begin_post m s).0)
unfolding begin_post to_finalizing
rotate_post-InLimit max none r s v = unfold complete in record { cap = v.cap; index = v.index }
rotate_post-InLimit max (some m) r s v =
    let t = record s { state = finalizing } in
    complete-InLimit max _ r (apply_rate t)
      (apply_rate-InLimit max t (record { cap = v.cap; index = v.index })) (λ e. absurd cc)

rotate_in-InLimit :
    (max : ℤ) (ops : FloatOps) (st : State) (r : RotateReply) (s : Session)
    → s.state ≡ st
    → InLimit max s
    → MayRotate max s
    → InLimit max (complete (begin_in ops st s).1 r (begin_in ops st s).0)
unfolding begin_in
rotate_in-InLimit max ops recording r s e v h =
    rotate_recording-InLimit max s.out_fmt_ctx r s v (h e)
rotate_in-InLimit max ops post_buffer r s e v h =
    rotate_post-InLimit max s.out_fmt_ctx r _ (record { cap = v.cap; index = v.index })
rotate_in-InLimit max ops idle r s e v h = unfold complete in v
rotate_in-InLimit max ops pre_buffer r s e v h = unfold complete in v
rotate_in-InLimit max ops finalizing r s e v h = unfold complete in v

-- What the part of a push under the lock leaves, with its wish for a rotation.
abbrev pub Fits : ℤ → Option (Session × Bool) → Type 0
Fits max none = Unit
Fits max (some (t, b)) = InLimit max t × (b ≡ true → MayRotate max t)

kept-Fits : (max : ℤ) (s : Session) (o : Option PreBuffer) → InLimit max s → Fits max (kept s o)
unfolding kept
kept-Fits max s none v = tt
kept-Fits max s (some b) v = (record { cap = v.cap; index = v.index }, λ e. absurd cc)

reached-below :
    (max : ℤ) (lib : Library) (now : ℕ) (s : Session)
    → is_pos max ≡ true
    → InLimit max s
    → chunk_limit_reached lib now s ≡ true
    → s.chunk_idx +ℤ pos 1 ≤ℤ max
reached-below max lib now s p v h =
    subst (λ m. s.chunk_idx +ℤ pos 1 ≤ℤ m) v.cap
      ((chunk_limit_reached_lem lib now s h).1 (ap is_pos v.cap ∙ p))

push_in-Fits :
    (max : ℤ) (lib : Library) (now : ℕ) (p : AvPacket) (st : State) (s : Session)
    → is_pos max ≡ true
    → s.state ≡ st
    → InLimit max s
    → Fits max (push_in lib now p st s)
unfolding push_in
push_in-Fits max lib now p idle s m e v = (record { cap = v.cap; index = v.index }, λ e. absurd cc)
push_in-Fits max lib now p pre_buffer s m e v = kept-Fits max s _ v
push_in-Fits max lib now p finalizing s m e v =
    (record { cap = v.cap; index = v.index }, λ e. absurd cc)
push_in-Fits max lib now p recording s m e v =
    let w = along (push_recording-SameFiles lib now p s).core v in
    (w, λ b. λ r. reached-below max lib now (push_recording lib now p s).0 m w b)
push_in-Fits max lib now p post_buffer s m e v =
    let c = (add_to_post_buffer-SameFiles lib p s).core in
    (along c v, λ b. λ r. let x = c.state in absurd cc)

choose-Fits :
    (max : ℤ) (b : Bool) (o p : Option (Session × Bool))
    → Fits max o
    → Fits max p
    → Fits max (if b then o else p)
choose-Fits max true o p v w = v
choose-Fits max false o p v w = w

push_live-Fits :
    (max : ℤ) (lib : Library) (now : ℕ) (p : AvPacket) (s : Session)
    → is_pos max ≡ true
    → InLimit max s
    → Fits max (push_live lib now p s)
unfolding push_live count_pushed
push_live-Fits max lib now p s m v =
    let drop : Fits max (some (emit (dropped p) s, false)) =
      (record { cap = v.cap; index = v.index }, λ e. absurd cc) in
    choose-Fits max (s.shutdown_requested || (p.size == 0 || ltb max_reasonable_packet_size p.size))
      (some (emit (dropped p) s, false)) (push_in lib now p s.state (count_pushed s)) drop
      (push_in-Fits max lib now p s.state (count_pushed s) m refl
        (record { cap = v.cap; index = v.index }))

pub push_locked-Fits :
    (max : ℤ) (lib : Library) (now : ℕ) (p : Option AvPacket) (s : Session)
    → is_pos max ≡ true
    → InLimit max s
    → Fits max (push_locked lib now p s)
unfolding push_locked
push_locked-Fits max lib now none s m v = (v, λ e. absurd cc)
push_locked-Fits max lib now (some p) s m v = push_live-Fits max lib now p s m v

-- What a call leaves, where it returns.
abbrev pub Keeps : ℤ → Option Session → Type 0
Keeps max none = Unit
Keeps max (some t) = InLimit max t

pub finish_push-Keeps :
    (max : ℤ) (lib : Library) (r : RotateReply) (o : Option (Session × Bool))
    → Fits max o
    → Keeps max (finish_push lib r o)
unfolding finish_push finalize_and_rotate begin_finalize
finish_push-Keeps max lib r none f = tt
finish_push-Keeps max lib r (some (t, false)) f = f.0
finish_push-Keeps max lib r (some (t, true)) f =
    rotate_in-InLimit max lib.ops t.state r t refl f.0 (f.1 refl)
