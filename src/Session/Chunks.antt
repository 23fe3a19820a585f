-- ===== src/Session/Chunks.antt =====
-- recording_session.cpp: the limit on the chunks, and a STOP during a rotation.
use ivckolpak.Prelude.{
  ℕ, ◌≡◌, ◌⊎◌, refl, ◌∙◌, ap, Bool, true, false, not, ◌&&◌, ◌||◌, none, some, arith, Bool-cases,
  inl, inr,
}
use ivckolpak.Prelude.Int.{ℤ, pos, ◌≤ℤ◌, ◌+ℤ◌, is_pos, leb_ℤ}
use ivckolpak.Prelude.Double.{FloatOps}
use ivckolpak.Session.Packet.{nopts}
use ivckolpak.Session.State.{recording, finalizing, Muxer, Session, Library, RotateReply}
use ivckolpak.Session.Muxer.{finalize_file_io}
use ivckolpak.Session.Push.{time_hit, size_hit, count_hit, chunk_limit_reached}
use ivckolpak.Session.Rotate.{
  Pending, begin_in, begin_recording, begin_finalize, end_in, end_finalize, notify, complete,
}
use ivckolpak.Session.Control.{stop_in, stop_event}

count_hit_below :
    (max n : ℤ) → (is_pos max && leb_ℤ max n) ≡ false → is_pos max ≡ true → n +ℤ pos 1 ≤ℤ max
unfolding ◌+ℤ◌
count_hit_below max n h k = ground arith

both : (a b : Bool) → (a && b) ≡ true → (a ≡ true) × (b ≡ true)
both a b h = ground arith

reached :
    (t z c l : Bool) → (l && ((t || z) && not c)) ≡ true → ((t ≡ true) ⊎ (z ≡ true)) × (c ≡ false)
reached t z c l h = ground arith

reached_parts :
    (lib : Library) (now : ℕ) (s : Session)
    → chunk_limit_reached lib now s ≡ true
    → ((time_hit lib now s ≡ true) ⊎ (size_hit s ≡ true)) × (count_hit s ≡ false)
unfolding chunk_limit_reached
reached_parts lib now s h = reached (time_hit lib now s) (size_hit s) (count_hit s) _ h

-- A rotation is asked for only while `chunk_idx` is below `max_event_chunks`, where that is positive; and
-- only when the chunk has reached its limit in seconds or its limit in bytes.
pub chunk_limit_reached_lem :
    (lib : Library) (now : ℕ) (s : Session)
    → chunk_limit_reached lib now s ≡ true
    → ((time_hit lib now s ≡ true) ⊎ (size_hit s ≡ true))
      × (is_pos s.cfg.camera_cfg.max_event_chunks ≡ true
          → s.chunk_idx +ℤ pos 1 ≤ℤ s.cfg.camera_cfg.max_event_chunks)
chunk_limit_reached_lem lib now s h =
    let (hit, below) = reached_parts lib now s h in
    (hit, count_hit_below s.cfg.camera_cfg.max_event_chunks s.chunk_idx (unfold count_hit in below))

-- In FINALIZING a STOP changes nothing.
stop_in_finalizing : (s : Session) → s.state ≡ finalizing → stop_event s ≡ s
unfolding stop_event
stop_in_finalizing s e = rw (e, stop_in)

begin_recording-finalizing :
    (m : Muxer) (s : Session) → (begin_recording (some m) s).0.state ≡ finalizing
unfolding begin_recording
begin_recording-finalizing m s =
    elim (Bool-cases (is_pos s.analyzer.detected_fps.num && s.out_stream)) [
      | inl e ↦ rw e
      | inr e ↦ rw e
    ]

-- What a rotation from RECORDING begins with.
begin_finalize_recording :
    (ops : FloatOps) (m : Muxer) (s : Session)
    → s.state ≡ recording
    → s.out_fmt_ctx ≡ some m
    → begin_finalize ops s ≡ begin_recording (some m) s
unfolding begin_finalize
begin_finalize_recording ops m s e f =
    ap (λ st. begin_in ops st s) e ∙ unfold begin_in in ap (λ k. begin_recording k s) f

notify-state : (p : Pending) (ok : Bool) (s : Session) → (notify p ok s).state ≡ s.state
notify-state p ok s = elim (Bool-cases (ok && p.callback)) [
  | inl e ↦ unfold notify in rw e
  | inr e ↦ unfold notify in rw e
]

end_finalize-state :
    (p : Pending) (r : RotateReply) (s : Session)
    → p.previous ≡ recording
    → (end_finalize p r s).state ≡ recording
unfolding end_finalize end_in
end_finalize-state p r s e =
    ap
      (λ st.
        (end_in st r
          (record s { out_fmt_ctx = none; out_stream = false; chunk_start_pts = nopts })).state)
      e

complete-state :
    (p : Pending) (r : RotateReply) (s : Session)
    → p.previous ≡ recording
    → (complete (some p) r s).state ≡ recording
unfolding complete
complete-state p r s e =
    let t = (finalize_file_io p.path r.trailer_ok s).0 in
    notify-state p (finalize_file_io p.path r.trailer_ok s).1 (end_finalize p r t)
    ∙ end_finalize-state p r t e

complete_recording :
    (m : Muxer) (r : RotateReply) (s t : Session)
    → (complete (begin_recording (some m) s).1 r t).state ≡ recording
unfolding begin_recording
complete_recording m r s t =
    complete-state
      (record { path = s.current_filename; callback = s.cfg.on_video_save; previous = recording }) r
      t refl

-- What a STOP that falls into a rotation does: nothing. The rotation from RECORDING is in FINALIZING after
-- its first part; a STOP between that part and the next changes no field; and the session is
-- in RECORDING again when the rotation is over.
pub rotation_ignores_stop :
    (ops : FloatOps) (m : Muxer) (r : RotateReply) (s : Session)
    → s.state ≡ recording
    → s.out_fmt_ctx ≡ some m
    → ((begin_finalize ops s).0.state ≡ finalizing)
      × (stop_event (begin_finalize ops s).0 ≡ (begin_finalize ops s).0)
      × ((complete (begin_finalize ops s).1 r (stop_event (begin_finalize ops s).0)).state
          ≡ recording)
rotation_ignores_stop ops m r s e f =
    let b = begin_finalize_recording ops m s e f in
    let st = ap (λ x. x.0.state) b ∙ begin_recording-finalizing m s in
    (
      st,
      stop_in_finalizing (begin_finalize ops s).0 st,
      ap (λ x. (complete x.1 r (stop_event (begin_finalize ops s).0)).state) b
          ∙ complete_recording m r s (stop_event (begin_finalize ops s).0),
    )
