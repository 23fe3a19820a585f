-- ===== src/Session/Valid/Rotate.antt =====
-- recording_session.cpp: the invariant of a session over `finalize_and_rotate`.
pub mod Whole
use ivckolpak.Prelude.{
  ◌+◌, ◌≡◌, refl, ◌∙◌, ◌⊎◌, ◌&&◌, List, [], ◌∷◌, ◌++◌, Bool, true, false, Option, none, some, arith,
  Bool-cases, inl, inr,
}
use ivckolpak.Prelude.Int.{ℤ, pos, ◌≤ℤ◌, ◌+ℤ◌, is_pos}
use ivckolpak.Prelude.Bytes.{Bytes, is_empty}
use ivckolpak.Prelude.Double.{FloatOps}
use ivckolpak.Session.PreBuffer
use ivckolpak.Session.PreBuffer.{PreBuffer}
use ivckolpak.Session.PreBuffer.Sync.{InSync}
use ivckolpak.Session.PreBuffer.Limits.{IsBounded}
use ivckolpak.Session.Analyzer.{StreamAnalyzer, finalize}
use ivckolpak.Session.State.{
  State, idle, pre_buffer, recording, finalizing, post_buffer, Muxer, Effect, notified, Session,
  RotateReply,
}
use ivckolpak.Session.Muxer.{finalize_file_io}
use ivckolpak.Session.Rotate.{
  Pending, apply_rate, begin_recording, begin_post, begin_in, next_chunk, begin_finalize,
  end_finalize, end_in, notify, complete, finalize_and_rotate,
}
use ivckolpak.Session.Valid.{
  Phase, MuxerOk, IsBalanced, IsValid, opens, closes, opens-append, closes-append,
}
use ivckolpak.Session.Valid.Files.{
  FilesOk, init_muxer-SameCore, init_muxer-FilesOk, io_balanced, io_with-SameCore,
}

pub empty-InSync : InSync PreBuffer.empty
empty-InSync = record { counted = refl; summed = refl; small = omega arith }

pub empty-IsBounded : (limit : ℤ) → pos 0 ≤ℤ limit → IsBounded limit PreBuffer.empty
empty-IsBounded limit h = record {
  key_limit = h;
  byte_limit = omega arith;
  packet_limit = omega arith;
}

-- The promise of a state does not depend on the effects.
pub Phase-effects :
    (s : Session) (es : List Effect) → Phase s.state s → Phase s.state (record s { effects = es })
Phase-effects s es h = by_state s.state h
  where
    by_state : (st : State) → Phase st s → Phase st (record s { effects = es })
    by_state idle k = k
    by_state pre_buffer k = k
    by_state recording k = k
    by_state post_buffer k = k
    by_state finalizing k = k

Phase-analyzer :
    (s : Session) (a : StreamAnalyzer) → Phase s.state s → Phase s.state (record s { analyzer = a })
Phase-analyzer s a h = by_state s.state h
  where
    by_state : (st : State) → Phase st s → Phase st (record s { analyzer = a })
    by_state idle k = k
    by_state pre_buffer k = k
    by_state recording k = k
    by_state post_buffer k = k
    by_state finalizing k = k

pub in_recording : (s : Session) → s.state ≡ recording → Phase s.state s → s.pre ≡ PreBuffer.empty
in_recording s e h = rw e at h

pub in_post : (s : Session) → s.state ≡ post_buffer → Phase s.state s → s.pre ≡ PreBuffer.empty
in_post s e h = rw e at h

-- The session between the first part and the third: one file is open, under its name.
record IsFinalizing (name : Bytes) (s : Session) : Type 0 where
  limit : pos 0 ≤ℤ s.cfg.pre_buffer_iframes
  drained : s.pre ≡ PreBuffer.empty
  named : is_empty name ≡ false
  file : (m : Muxer) × (s.out_fmt_ctx ≡ some m) × (m.has_pb ≡ true)
  balanced : opens s.effects ≡ closes s.effects + 1

-- After the input and output the file is closed.
record IsFinished (s : Session) : Type 0 where
  limit : pos 0 ≤ℤ s.cfg.pre_buffer_iframes
  drained : s.pre ≡ PreBuffer.empty
  balanced : opens s.effects ≡ closes s.effects

finalize_file_io-IsFinished :
    (name : Bytes) (ok : Bool) (s : Session)
    → IsFinalizing name s
    → IsFinished (finalize_file_io name ok s).0
unfolding finalize_file_io
finalize_file_io-IsFinished name ok s f =
    let (m, e, h) = f.file in
    let same = io_with-SameCore name ok (some m) s in
    rw (f.named, e)
      (record {
        limit = rw same.cfg f.limit;
        drained = same.pre ∙ f.drained;
        balanced = io_balanced name ok m s h f.balanced;
      })

next_chunk-SameCore_FilesOk :
    (r : RotateReply) (s : Session)
    → IsFinished s
    → s.out_fmt_ctx ≡ none
    → ((next_chunk r s).cfg ≡ s.cfg) × ((next_chunk r s).pre ≡ s.pre) × FilesOk (next_chunk r s)
unfolding next_chunk
next_chunk-SameCore_FilesOk r s f e =
    let next = record s {
      chunk_idx = s.chunk_idx +ℤ pos 1;
      chunk_bytes = 0;
      event_start_time = r.moment.now;
    } in
    let same = init_muxer-SameCore r.moment.local r.reopen s.stored_codec_params next in
    (
      same.cfg,
      same.pre,
      init_muxer-FilesOk r.moment.local r.reopen s.stored_codec_params next e
          (ground (arith, f.balanced)),
    )

end_in-IsValid :
    (st : State) (r : RotateReply) (s : Session)
    → (st ≡ recording) ⊎ (st ≡ post_buffer)
    → IsFinished s
    → s.out_fmt_ctx ≡ none
    → IsValid (end_in st r s)
end_in-IsValid recording r s h f e =
    let (cfg, pre, files) = next_chunk-SameCore_FilesOk r s f e in
    unfold end_in in
    record {
      limit = rw cfg f.limit;
      phase = pre ∙ f.drained;
      muxer = files.muxer;
      balanced = files.balanced;
    }
end_in-IsValid post_buffer r s h f e =
    unfold end_in in
    record {
      limit = f.limit;
      phase = (
        e,
        rw f.drained empty-InSync,
        rw f.drained (empty-IsBounded s.cfg.pre_buffer_iframes f.limit),
      );
      muxer = rw e tt;
      balanced = ground (arith, f.balanced);
    }
end_in-IsValid idle r s h f e = absurd (ground arith)
end_in-IsValid pre_buffer r s h f e = absurd (ground arith)
end_in-IsValid finalizing r s h f e = absurd (ground arith)

notify-IsValid : (p : Pending) (ok : Bool) (s : Session) → IsValid s → IsValid (notify p ok s)
notify-IsValid p ok s v = elim (Bool-cases (ok && p.callback)) [
  | inl e ↦
      unfold notify in
      rw e (record {
        limit = v.limit;
        phase = Phase-effects s (s.effects ++ notified p.path ∷ []) v.phase;
        muxer = v.muxer;
        balanced = omega (
          arith,
          v.balanced,
          opens-append s.effects (notified p.path ∷ []),
          closes-append s.effects (notified p.path ∷ []),
        );
      })
  | inr e ↦ unfold notify in rw e v
]

complete-IsValid :
    (p : Pending) (r : RotateReply) (s : Session)
    → (p.previous ≡ recording) ⊎ (p.previous ≡ post_buffer)
    → IsFinalizing p.path s
    → IsValid (complete (some p) r s)
unfolding complete end_finalize
complete-IsValid p r s h f =
    let done = finalize_file_io-IsFinished p.path r.trailer_ok s f in
    notify-IsValid p _ _ (
      end_in-IsValid p.previous r _ h
        (record { limit = done.limit; drained = done.drained; balanced = done.balanced }) refl)
