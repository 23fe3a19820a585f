-- ===== src/Session/Rotate.antt =====
-- recording_session.cpp: `finalize_and_rotate`, in its three parts: under the lock, the file's input
-- and output outside it, and under the lock again.
use ivckolpak.Prelude.{[], Bool, false, ◌&&◌, Option, none, some, if◌then◌else◌}
use ivckolpak.Prelude.Int.{pos, ◌+ℤ◌, is_pos}
use ivckolpak.Prelude.Bytes.{Bytes}
use ivckolpak.Prelude.Double.{FloatOps}
use ivckolpak.Session.Packet.{nopts}
use ivckolpak.Session.Analyzer.{Rational, finalize}
use ivckolpak.Session.State.{
  State, pre_buffer, recording, finalizing, post_buffer, Muxer, notified, Session, emit,
  RotateReply,
}
use ivckolpak.Session.Muxer.{init_muxer, finalize_file_io}

-- The local variables that pass from the first part to the third.
pub record Pending : Type 0 where
  pub path : Bytes
  pub callback : Bool
  pub previous : State

unfoldable pub with_rate : Rational → Option Muxer → Option Muxer
with_rate r none = none
with_rate r (some m) = some (record m { avg_frame_rate = r })

-- The detected rate goes to the output stream.
unfoldable pub apply_rate : Session → Session
unfolding with_rate
apply_rate s =
    if is_pos s.analyzer.detected_fps.num && s.out_stream
    then record s { out_fmt_ctx = with_rate s.analyzer.detected_fps s.out_fmt_ctx }
    else s

unfoldable pub to_finalizing : State → Session → Session × Option Pending
unfolding apply_rate
to_finalizing previous s = (
  apply_rate (record s { state = finalizing }),
  some (record { path = s.current_filename; callback = s.cfg.on_video_save; previous = previous }),
)

unfoldable pub begin_recording : Option Muxer → Session → Session × Option Pending
unfolding to_finalizing
begin_recording none s = (s, none)
begin_recording (some m) s = to_finalizing recording s

unfoldable pub begin_post : Option Muxer → Session → Session × Option Pending
unfolding to_finalizing
begin_post none s =
    (record s { post_packets = []; post_buffer_iframe_count = pos 0; state = pre_buffer }, none)
begin_post (some m) s = to_finalizing post_buffer s

unfoldable pub begin_in : FloatOps → State → Session → Session × Option Pending
unfolding begin_recording begin_post finalize
begin_in ops recording s = begin_recording s.out_fmt_ctx s
begin_in ops post_buffer s =
    begin_post s.out_fmt_ctx (record s { analyzer = finalize ops s.analyzer })
begin_in ops _ s = (s, none)

-- The first part; none where the function returns from it.
unfoldable pub begin_finalize : FloatOps → Session → Session × Option Pending
unfolding begin_in
begin_finalize ops s = begin_in ops s.state s

unfoldable pub next_chunk : RotateReply → Session → Session
unfolding init_muxer
next_chunk r s = init_muxer r.moment.local r.reopen s.stored_codec_params (record s {
  chunk_idx = s.chunk_idx +ℤ pos 1;
  chunk_bytes = 0;
  event_start_time = r.moment.now;
})

unfoldable pub end_in : State → RotateReply → Session → Session
unfolding next_chunk
end_in recording r s = record (next_chunk r s) { state = recording }
end_in post_buffer r s = record s {
  post_packets = [];
  post_buffer_iframe_count = pos 0;
  state = pre_buffer;
}
end_in _ r s = s

-- The third part.
unfoldable pub end_finalize : Pending → RotateReply → Session → Session
unfolding end_in
end_finalize p r s =
    end_in p.previous r
      (record s { out_fmt_ctx = none; out_stream = false; chunk_start_pts = nopts })

-- The callback after the third part.
unfoldable pub notify : Pending → Bool → Session → Session
notify p success s = if success && p.callback then emit (notified p.path) s else s

-- The second and the third part.
unfoldable pub complete : Option Pending → RotateReply → Session → Session
unfolding finalize_file_io end_finalize notify
complete none r s = s
complete (some p) r s =
    let (t, success) = finalize_file_io p.path r.trailer_ok s in
    notify p success (end_finalize p r t)

unfoldable pub finalize_and_rotate : FloatOps → RotateReply → Session → Session
unfolding begin_finalize complete
finalize_and_rotate ops r s = let (t, pending) = begin_finalize ops s in complete pending r t
