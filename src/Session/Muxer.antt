-- ===== src/Session/Muxer.antt =====
-- recording_session.cpp: the functions that touch the output file.
use ivckolpak.Prelude.{
  [], ◌∷◌, ◌++◌, Bool, true, false, not, ◌&&◌, Option, none, some, if◌then◌else◌,
}
use ivckolpak.Prelude.Int.{ℤ, pos, ◌+ℤ◌, leb_ℤ, eqb_ℤ}
use ivckolpak.Prelude.Word.{add64}
use ivckolpak.Prelude.Bytes.{Bytes, is_empty}
use ivckolpak.Alarm.Event.{AlarmEvent}
use ivckolpak.Config.Filename.{LocalTime, format_filename}
use ivckolpak.Session.Packet.{AvPacket, Packet, nopts}
use ivckolpak.Session.Analyzer.{Rational, analyze_packet}
use ivckolpak.Session.State.{
  CodecParams, Muxer, opened, wrote, dropped, trailed, closed, removed, Session, emit, Library,
  OpenReply,
}

-- The event with the number of the session.
abbrev numbered : ℤ → Option AlarmEvent → Option AlarmEvent
numbered n none = none
numbered n (some e) = some (record e { event_id = n })

-- `target_dir + "/" + format_filename(...)`
unfoldable pub next_filename : LocalTime → Session → Bytes
next_filename local s =
    let cam = s.cfg.camera_cfg in
    cam.target_dir
    ++ (b'/'
        ∷ format_filename local cam.filename_format cam s.chunk_idx
            (numbered s.current_event_id s.current_event))

-- The steps after the file name, each of which may fail.
unfoldable pub open_muxer : OpenReply → CodecParams → Session → Session
open_muxer r codec s =
    if not r.alloc_ok
    then s
    else if not r.open_ok
    then s
    else if not r.stream_ok
    then record s {
      out_stream = false;
      effects = s.effects ++ opened s.current_filename ∷ closed s.current_filename ∷ [];
    }
    else if not r.header_ok
    then record s {
      out_stream = true;
      effects = s.effects ++ opened s.current_filename ∷ closed s.current_filename ∷ [];
    }
    else record s {
      out_stream = true;
      out_fmt_ctx = some (record {
        path = s.current_filename;
        has_pb = true;
        codecpar = codec;
        time_base = r.time_base;
        avg_frame_rate = s.stored_frame_rate;
      });
      effects = s.effects ++ opened s.current_filename ∷ [];
    }

unfoldable pub init_muxer : LocalTime → OpenReply → Option CodecParams → Session → Session
unfolding open_muxer next_filename
init_muxer local r none s = s
init_muxer local r (some codec) s =
    open_muxer r codec (record s { current_filename = next_filename local s })

-- The packet as it goes to the muxer.
abbrev pub outgoing : Library → Muxer → Rational → AvPacket → AvPacket
outgoing lib m base p = record (lib.rescale_ts p base m.time_base) { stream_index = pos 0 }

write_live : Library → Muxer → AvPacket → Session → Session
write_live lib m p s =
    let q = outgoing lib m s.analyzer.time_base p in
    record s {
      chunk_start_pts =
          if not (eqb_ℤ q.pts nopts) && eqb_ℤ s.chunk_start_pts nopts
          then q.pts
          else s.chunk_start_pts;
      effects = s.effects ++ wrote m.path q ∷ [];
    }

unfoldable pub write_with : Library → Option Muxer → AvPacket → Session → Session
unfolding write_live
write_with lib none p s = emit (dropped p) s
write_with lib (some m) p s = write_live lib m p s

-- The packet is freed at the end; without an output file that is all.
unfoldable pub write_packet_to_file : Library → Option AvPacket → Session → Session
unfolding write_with
write_packet_to_file lib none s = s
write_packet_to_file lib (some p) s = write_with lib s.out_fmt_ctx p s

-- The packet is written at once; the result says whether enough key frames have come.
unfoldable pub add_to_post_buffer : Library → Packet → Session → Session × Bool
unfolding analyze_packet write_packet_to_file
add_to_post_buffer lib p s = elim p.pkt [
  | none ↦ (s, false)
  | some a ↦
      let counted = record s {
        post_buffer_iframe_count =
            if p.is_keyframe
            then s.post_buffer_iframe_count +ℤ pos 1
            else s.post_buffer_iframe_count;
        analyzer = analyze_packet (some a) s.analyzer;
      } in
      let written = write_packet_to_file lib (some a) counted in
      let t = record written { local_written_bytes = add64 written.local_written_bytes p.size } in
      (t, leb_ℤ t.cfg.post_buffer_iframes t.post_buffer_iframe_count)
]

unfoldable pub io_with : Bytes → Bool → Option Muxer → Session → Session × Bool
io_with path trailer_ok none s = (s, false)
io_with path trailer_ok (some m) s =
    let done =
      trailed m.path
      ∷ ((if m.has_pb then closed m.path ∷ [] else [])
          ++ (if trailer_ok then [] else removed path ∷ [])) in
    (
      record s { out_fmt_ctx = some (record m { has_pb = false }); effects = s.effects ++ done },
      trailer_ok,
    )

-- The trailer is written and the file closed; where the trailer fails the file is removed.
unfoldable pub finalize_file_io : Bytes → Bool → Session → Session × Bool
unfolding io_with
finalize_file_io path trailer_ok s =
    if is_empty path then (s, false) else io_with path trailer_ok s.out_fmt_ctx s
