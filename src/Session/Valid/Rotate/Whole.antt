-- ===== src/Session/Valid/Rotate/Whole.antt =====
-- recording_session.cpp: the invariant of a session over a whole rotation.
use ivckolpak.Prelude.{◌≡◌, refl, ◌&&◌, Option, none, some, arith, Bool-cases, inl, inr}
use ivckolpak.Prelude.Int.{pos, ◌≤ℤ◌, is_pos}
use ivckolpak.Prelude.Bytes.{Bytes}
use ivckolpak.Prelude.Double.{FloatOps}
use ivckolpak.Session.PreBuffer
use ivckolpak.Session.PreBuffer.{PreBuffer}
use ivckolpak.Session.Analyzer.{finalize}
use ivckolpak.Session.State.{
  State, idle, pre_buffer, recording, finalizing, post_buffer, Muxer, Session, RotateReply,
}
use ivckolpak.Session.Rotate.{
  apply_rate, begin_recording, begin_post, begin_in, begin_finalize, complete, finalize_and_rotate,
}
use ivckolpak.Session.Valid.{MuxerOk, IsBalanced, IsValid}
use ivckolpak.Session.Valid.Rotate.{
  IsFinalizing, Phase-analyzer, complete-IsValid, empty-InSync, empty-IsBounded, in_post,
  in_recording,
}

apply_rate-IsFinalizing :
    (name : Bytes) (s : Session) → IsFinalizing name s → IsFinalizing name (apply_rate s)
apply_rate-IsFinalizing name s f =
    let (m, e, h) = f.file in
    elim (Bool-cases (is_pos s.analyzer.detected_fps.num && s.out_stream)) [
      | inl c ↦
          unfold apply_rate in
          rw c (record {
            limit = f.limit;
            drained = f.drained;
            named = f.named;
            file = (record m { avg_frame_rate = s.analyzer.detected_fps }, rw e, h);
            balanced = f.balanced;
          })
      | inr c ↦ unfold apply_rate in rw c f
    ]

to_finalizing-IsFinalizing :
    (m : Muxer) (s : Session)
    → s.out_fmt_ctx ≡ some m
    → pos 0 ≤ℤ s.cfg.pre_buffer_iframes
    → s.pre ≡ PreBuffer.empty
    → MuxerOk (some m) s.current_filename s.out_stream
    → IsBalanced s
    → IsFinalizing s.current_filename (apply_rate (record s { state = finalizing }))
to_finalizing-IsFinalizing m s e l d k b =
    apply_rate-IsFinalizing s.current_filename (record s { state = finalizing })
      (record {
        limit = l;
        drained = d;
        named = k.3;
        file = (m, e, k.1);
        balanced = ground (arith, b);
      })

rotate_recording :
    (m : Option Muxer) (r : RotateReply) (s : Session)
    → s.out_fmt_ctx ≡ m
    → s.state ≡ recording
    → IsValid s
    → IsValid (complete (begin_recording m s).1 r (begin_recording m s).0)
unfolding begin_recording
rotate_recording none r s e st v = unfold complete in v
rotate_recording (some m) r s e st v = complete-IsValid _ r _ (inl refl) (
    to_finalizing-IsFinalizing m s e v.limit (in_recording s st v.phase) (rw e at v.muxer)
      v.balanced)

rotate_post :
    (m : Option Muxer) (r : RotateReply) (s : Session)
    → s.out_fmt_ctx ≡ m
    → s.state ≡ post_buffer
    → IsValid s
    → IsValid (complete (begin_post m s).1 r (begin_post m s).0)
unfolding begin_post
rotate_post none r s e st v =
    unfold complete in
    record {
      limit = v.limit;
      phase = (
        e,
        rw (in_post s st v.phase) empty-InSync,
        rw (in_post s st v.phase) (empty-IsBounded s.cfg.pre_buffer_iframes v.limit),
      );
      muxer = v.muxer;
      balanced = v.balanced;
    }
rotate_post (some m) r s e st v =
    complete-IsValid _ r _ (inr refl)
      (to_finalizing-IsFinalizing m s e v.limit (in_post s st v.phase) (rw e at v.muxer) v.balanced)

rotate_in :
    (ops : FloatOps) (st : State) (r : RotateReply) (s : Session)
    → s.state ≡ st
    → IsValid s
    → IsValid (complete (begin_in ops st s).1 r (begin_in ops st s).0)
rotate_in ops recording r s st v = unfold begin_in in rotate_recording s.out_fmt_ctx r s refl st v
rotate_in ops post_buffer r s st v =
    unfold begin_in in
    rotate_post s.out_fmt_ctx r (record s { analyzer = finalize ops s.analyzer }) refl st
      (record {
        limit = v.limit;
        phase = Phase-analyzer s (finalize ops s.analyzer) v.phase;
        muxer = v.muxer;
        balanced = v.balanced;
      })
rotate_in ops idle r s st v = unfold begin_in complete in v
rotate_in ops pre_buffer r s st v = unfold begin_in complete in v
rotate_in ops finalizing r s st v = unfold begin_in complete in v

-- `finalize_and_rotate` keeps the session valid, whatever FFmpeg returns: every file that was opened
-- is closed but the one that the session still writes, and the session is not left in FINALIZING.
pub finalize_and_rotate-IsValid :
    (ops : FloatOps) (r : RotateReply) (s : Session)
    → IsValid s
    → IsValid (finalize_and_rotate ops r s)
unfolding finalize_and_rotate begin_finalize
finalize_and_rotate-IsValid ops r s v = rotate_in ops s.state r s refl v
