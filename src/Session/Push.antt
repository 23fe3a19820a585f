-- ===== src/Session/Push.antt =====
-- recording_session.cpp: `push_packet`.
use ivckolpak.Prelude.{
  ℕ, ◌*◌, ◌%◌, Bool, true, false, not, ◌&&◌, ◌||◌, Option, none, some, ltb, leb, ◌==◌,
  if◌then◌else◌,
}
use ivckolpak.Prelude.Int.{leb_ℤ, is_pos, pos_part}
use ivckolpak.Prelude.Word.{add64}
use ivckolpak.Prelude.Double.{ltb_double, leb_double, zero_double}
use ivckolpak.Session.Packet.{AvPacket, packet_of}
use ivckolpak.Session.PreBuffer.{PreBuffer, add_to_pre_buffer}
use ivckolpak.Session.Analyzer.{analyze_packet}
use ivckolpak.Session.State.{
  State, idle, pre_buffer, recording, finalizing, post_buffer, dropped, Session, emit, Library,
  RotateReply,
}
use ivckolpak.Session.Muxer.{write_packet_to_file, add_to_post_buffer}
use ivckolpak.Session.Rotate.{finalize_and_rotate}

abbrev pub max_reasonable_packet_size : ℕ
max_reasonable_packet_size = 1 * 1024 * 1024

unfoldable pub time_hit : Library → ℕ → Session → Bool
time_hit lib now s =
    ltb_double zero_double s.cfg.camera_cfg.max_chunk_duration_time_s
    && leb_double s.cfg.camera_cfg.max_chunk_duration_time_s (lib.seconds s.event_start_time now)

unfoldable pub size_hit : Session → Bool
size_hit s =
    is_pos s.cfg.camera_cfg.max_chunk_kbytes
    && leb (pos_part s.cfg.camera_cfg.max_chunk_kbytes * 1024) s.chunk_bytes

unfoldable pub count_hit : Session → Bool
count_hit s =
    is_pos s.cfg.camera_cfg.max_event_chunks && leb_ℤ s.cfg.camera_cfg.max_event_chunks s.chunk_idx

-- Whether the chunk is to be rotated.
unfoldable pub chunk_limit_reached : Library → ℕ → Session → Bool
unfolding time_hit size_hit count_hit
chunk_limit_reached lib now s =
    (ltb_double zero_double s.cfg.camera_cfg.max_chunk_duration_time_s
      || is_pos s.cfg.camera_cfg.max_chunk_kbytes)
    && ((time_hit lib now s || size_hit s) && not (count_hit s))

-- The case RECORDING.
unfoldable pub push_recording : Library → ℕ → AvPacket → Session → Session × Bool
unfolding analyze_packet write_packet_to_file chunk_limit_reached
push_recording lib now p s =
    let written =
      write_packet_to_file lib (some p)
        (record s { analyzer = analyze_packet (some p) s.analyzer }) in
    let bytes = add64 written.local_written_bytes p.size in
    let t = record written {
      local_written_bytes = bytes;
      total_written_bytes =
          if written.local_pushed_frames % 30 == 0 then bytes else written.total_written_bytes;
      chunk_bytes = add64 written.chunk_bytes p.size;
    } in
    (t, chunk_limit_reached lib now t)

unfoldable pub kept : Session → Option PreBuffer → Option (Session × Bool)
kept s none = none
kept s (some b) = some (record s { pre = b }, false)

-- The `switch` under the lock: none where the loop of the pre-buffer does not end; the flag is
-- `should_finalize`.
unfoldable pub push_in : Library → ℕ → AvPacket → State → Session → Option (Session × Bool)
unfolding kept push_recording packet_of add_to_pre_buffer add_to_post_buffer
push_in lib now p idle s = some (emit (dropped p) s, false)
push_in lib now p pre_buffer s =
    kept s (add_to_pre_buffer s.cfg.pre_buffer_iframes (packet_of (some p)) s.pre)
push_in lib now p finalizing s = some (emit (dropped p) s, false)
push_in lib now p recording s = some (push_recording lib now p s)
push_in lib now p post_buffer s = some (add_to_post_buffer lib (packet_of (some p)) s)

-- The count of the pushed packets; every thirtieth time it is published.
unfoldable pub count_pushed : Session → Session
count_pushed s =
    let n = add64 s.local_pushed_frames 1 in
    record s {
      local_pushed_frames = n;
      total_pushed_frames = if n % 30 == 0 then n else s.total_pushed_frames;
    }

unfoldable pub push_live : Library → ℕ → AvPacket → Session → Option (Session × Bool)
unfolding push_in count_pushed
push_live lib now p s =
    if s.shutdown_requested || (p.size == 0 || ltb max_reasonable_packet_size p.size)
    then some (emit (dropped p) s, false)
    else push_in lib now p s.state (count_pushed s)

-- All of `push_packet` up to the end of the lock.
unfoldable pub push_locked : Library → ℕ → Option AvPacket → Session → Option (Session × Bool)
unfolding push_live
push_locked lib now none s = some (s, false)
push_locked lib now (some p) s = push_live lib now p s

unfoldable pub finish_push : Library → RotateReply → Option (Session × Bool) → Option Session
unfolding finalize_and_rotate
finish_push lib r none = none
finish_push lib r (some (s, false)) = some s
finish_push lib r (some (s, true)) = some (finalize_and_rotate lib.ops r s)

unfoldable pub push_packet : Library → ℕ → RotateReply → Option AvPacket → Session → Option Session
unfolding push_locked finish_push
push_packet lib now r p s = finish_push lib r (push_locked lib now p s)
