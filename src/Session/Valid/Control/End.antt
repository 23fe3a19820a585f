-- ===== src/Session/Valid/Control/End.antt =====
-- recording_session.cpp: the invariant of a session over `force_stop` and `shutdown`.
use mathlib.Core.Path.{subst}
use ivckolpak.Prelude.{
  ◌≡◌, refl, sym, ◌∙◌, [], ◌∷◌, ◌++◌, Bool, true, false, not, ◌&&◌, Option, none, some, arith,
  if◌then◌else◌, Bool-cases, inl, inr,
}
use ivckolpak.Prelude.Int.{pos, ◌≤ℤ◌}
use ivckolpak.Prelude.Bytes.{Bytes, is_empty}
use ivckolpak.Session.PreBuffer
use ivckolpak.Session.PreBuffer.{PreBuffer}
use ivckolpak.Session.State.{
  State, idle, pre_buffer, recording, finalizing, post_buffer, Muxer, notified, Session,
}
use ivckolpak.Session.Muxer.{finalize_file_io}
use ivckolpak.Session.Control.{
  begin_force, end_force, notify_forced, halt, is_active, path_of, has_muxer, force_active,
  force_stop, shutdown,
}
use ivckolpak.Session.Valid.{
  Phase, MuxerOk, IsBalanced, IsValid, opens, closes, opens-append, closes-append,
}
use ivckolpak.Session.Valid.Files.{SameCore, io_balanced, io_with-SameCore}
use ivckolpak.Session.Valid.Rotate.{empty-InSync, empty-IsBounded, Phase-effects}
use ivckolpak.Session.Valid.Control.{closed_outside}

-- In an active state the counters of the pre-buffer are at zero.
drained_inside :
    (s : Session) → is_active s.state ≡ true → Phase s.state s → s.pre ≡ PreBuffer.empty
drained_inside s e h = by_state s.state e h
  where
    by_state : (st : State) → is_active st ≡ true → Phase st s → s.pre ≡ PreBuffer.empty
    by_state recording e h = h
    by_state post_buffer e h = h
    by_state finalizing e h = absurd h
    by_state idle e h = cc
    by_state pre_buffer e h = cc

-- After the current file, if any, was finished, no file is open.
closed_after :
    (ok : Bool) (m : Option Muxer) (s : Session)
    → s.out_fmt_ctx ≡ m
    → MuxerOk m s.current_filename s.out_stream
    → IsBalanced s
    → let t = (finalize_file_io (path_of m s.current_filename) ok s).0 in
      SameCore s t × (opens t.effects ≡ closes t.effects)
closed_after ok none s e k b =
    unfold finalize_file_io in
    (record { cfg = refl; state = refl; pre = refl; chunk_idx = refl }, ground (arith, b))
closed_after ok (some m) s e k b =
    unfold finalize_file_io in
    simp (k.3, e)
      (
        io_with-SameCore s.current_filename ok (some m) s,
        io_balanced s.current_filename ok m s k.1 (ground (arith, b)),
      )

begin_force-pre : (s : Session) → s.pre ≡ PreBuffer.empty → (begin_force s).pre ≡ PreBuffer.empty
unfolding begin_force
begin_force-pre s e = rw e refl

-- The second part of `force_stop`, on a session whose file was finished.
end_force-IsValid :
    (s : Session)
    → pos 0 ≤ℤ s.cfg.pre_buffer_iframes
    → s.pre ≡ PreBuffer.empty
    → opens s.effects ≡ closes s.effects
    → IsValid (end_force s)
end_force-IsValid s l e b =
    unfold end_force in
    record {
      limit = l;
      phase = (refl, rw e empty-InSync, rw e (empty-IsBounded s.cfg.pre_buffer_iframes l));
      muxer = tt;
      balanced = omega (arith, b);
    }

notify_forced-IsValid :
    (path : Bytes) (callback : Bool) (s : Session)
    → IsValid s
    → IsValid (notify_forced path callback s)
notify_forced-IsValid path callback s v = elim (Bool-cases (not (is_empty path) && callback)) [
  | inr e ↦ unfold notify_forced in rw e v
  | inl e ↦
      unfold notify_forced in
      rw e (record {
        limit = v.limit;
        phase = Phase-effects s (s.effects ++ notified path ∷ []) v.phase;
        muxer = v.muxer;
        balanced = omega (
          arith,
          v.balanced,
          opens-append s.effects (notified path ∷ []),
          closes-append s.effects (notified path ∷ []),
        );
      })
]

force_active-IsValid :
    (ok : Bool) (s : Session) → is_active s.state ≡ true → IsValid s → IsValid (force_active ok s)
force_active-IsValid ok s a v =
    let (core, even) =
      closed_after ok s.out_fmt_ctx (begin_force s) (unfold begin_force in refl)
        (unfold begin_force in v.muxer) (unfold begin_force in v.balanced) in
    let name = path_of s.out_fmt_ctx (begin_force s).current_filename in
    let t = (finalize_file_io name ok (begin_force s)).0 in
    let done =
      end_force-IsValid t (rw core.cfg (unfold begin_force in v.limit))
        (core.pre ∙ begin_force-pre s (drained_inside s a v.phase)) even in
    unfold force_active begin_force in
    notify_forced-IsValid name (has_muxer s.out_fmt_ctx && s.cfg.on_video_save) (end_force t) done

-- `force_stop` keeps the session valid, whatever `av_write_trailer` returns.
pub force_stop-IsValid : (ok : Bool) (s : Session) → IsValid s → IsValid (force_stop ok s)
force_stop-IsValid ok s v = elim (Bool-cases (is_active s.state)) [
  | inl a ↦ unfold force_stop in rw a (force_active-IsValid ok s a v)
  | inr a ↦ unfold force_stop in rw a v
]

halted_state : (s : Session) → (halt s).state ≡ idle
unfolding halt
halted_state s = refl

halted_limit :
    (s : Session) → pos 0 ≤ℤ s.cfg.pre_buffer_iframes → pos 0 ≤ℤ (halt s).cfg.pre_buffer_iframes
unfolding halt
halted_limit s l = l

-- The second part of `shutdown`.
halted-IsValid :
    (s t : Session)
    → SameCore (halt s) t
    → opens t.effects ≡ closes t.effects
    → pos 0 ≤ℤ s.cfg.pre_buffer_iframes
    → IsValid (record t { out_fmt_ctx = none; out_stream = false })
halted-IsValid s t core even l = record {
  limit = rw core.cfg (halted_limit s l);
  phase =
      subst (λ x. Phase x (record t { out_fmt_ctx = none; out_stream = false }))
        (sym (core.state ∙ halted_state s)) refl;
  muxer = tt;
  balanced = omega (arith, even);
}

shutdown_path :
    (s : Session)
    → IsValid s
    → (if is_active s.state then path_of s.out_fmt_ctx s.current_filename else [])
      ≡ path_of s.out_fmt_ctx s.current_filename
shutdown_path s v = elim (Bool-cases (is_active s.state)) [
  | inl a ↦ rw a
  | inr a ↦ rw (a, closed_outside s a v.phase)
]

-- `shutdown` keeps the session valid: in particular the file that was open is closed.
pub shutdown-IsValid : (ok : Bool) (s : Session) → IsValid s → IsValid (shutdown ok s)
shutdown-IsValid ok s v =
    let (core, even) =
      closed_after ok s.out_fmt_ctx (halt s) (unfold halt in refl) (unfold halt in v.muxer)
        (unfold halt in v.balanced) in
    let name = path_of s.out_fmt_ctx (halt s).current_filename in
    let done = halted-IsValid s (finalize_file_io name ok (halt s)).0 core even v.limit in
    unfold shutdown halt in
    subst
      (λ path.
        IsValid
          (record (finalize_file_io path ok (halt s)).0 { out_fmt_ctx = none; out_stream = false }))
      (sym (shutdown_path s v)) done
