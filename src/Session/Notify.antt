-- ===== src/Session/Notify.antt =====
-- When `on_video_save` runs, and for which file.
use ivckolpak.Prelude.{
  ◌≡◌, ◌∙◌, ap, [], ◌∷◌, ◌++◌, append_assoc, Bool, true, false, ◌&&◌, Option, some,
}
use ivckolpak.Prelude.Bytes.{Bytes, is_empty}
use ivckolpak.Session.State.{Muxer, trailed, closed, removed, notified, Session}
use ivckolpak.Session.Muxer.{io_with, finalize_file_io}
use ivckolpak.Session.Control.{
  is_active, path_of, has_muxer, begin_force, end_force, notify_forced, force_active, force_stop,
}
use ivckolpak.Session.Valid.{MuxerOk}

forced_io :
    (m : Muxer) (s : Session)
    → s.out_fmt_ctx ≡ some m
    → MuxerOk (some m) s.current_filename s.out_stream
    → (finalize_file_io s.current_filename false (begin_force s)).0.effects
      ≡ s.effects ++ trailed m.path ∷ closed m.path ∷ removed s.current_filename ∷ []
unfolding finalize_file_io begin_force io_with
forced_io m s e k = simp (k.3, e, k.1)

notify_forced-effects :
    (path : Bytes) (callback : Bool) (s : Session)
    → is_empty path ≡ false
    → callback ≡ true
    → (notify_forced path callback s).effects ≡ s.effects ++ notified path ∷ []
unfolding notify_forced
notify_forced-effects path callback s e c = rw (e, c)

-- `force_active`, with the output context as an argument.
abbrev forced : Bool → Session → Option Muxer → Session
forced ok s o =
    notify_forced (path_of o s.current_filename) (has_muxer o && s.cfg.on_video_save)
      (end_force (finalize_file_io (path_of o s.current_filename) ok (begin_force s)).0)

forced_active :
    (ok : Bool) (s : Session)
    → is_active s.state ≡ true
    → force_stop ok s ≡ forced ok s s.out_fmt_ctx
unfolding force_stop force_active
forced_active ok s a = simp a

forced_effects :
    (m : Muxer) (s : Session)
    → s.out_fmt_ctx ≡ some m
    → MuxerOk (some m) s.current_filename s.out_stream
    → (end_force (finalize_file_io s.current_filename false (begin_force s)).0).effects
      ≡ s.effects ++ trailed m.path ∷ closed m.path ∷ removed s.current_filename ∷ []
unfolding end_force
forced_effects m s e k = forced_io m s e k

-- In an event with an open file and a callback, `force_stop` whose trailer fails deletes the file
-- and then hands its path to `on_video_save` all the same.
pub force_stop_notifies_removed :
    (m : Muxer) (s : Session)
    → is_active s.state ≡ true
    → s.out_fmt_ctx ≡ some m
    → MuxerOk (some m) s.current_filename s.out_stream
    → s.cfg.on_video_save ≡ true
    → (force_stop false s).effects
      ≡ s.effects
        ++ trailed m.path
          ∷ closed m.path
          ∷ removed s.current_filename
          ∷ notified s.current_filename
          ∷ []
force_stop_notifies_removed m s a e k c =
    ap (λ x. x.effects) (forced_active false s a)
    ∙ ap (λ o. (forced false s o).effects) e
    ∙ notify_forced-effects s.current_filename s.cfg.on_video_save _ k.3 c
    ∙ ap (λ x. x ++ notified s.current_filename ∷ []) (forced_effects m s e k)
    ∙ append_assoc s.effects (trailed m.path ∷ closed m.path ∷ removed s.current_filename ∷ [])
        (notified s.current_filename ∷ [])
