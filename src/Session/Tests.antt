-- ===== src/Session/Tests.antt =====
-- Concrete sessions: runs of the code, and the theorems at inputs that meet their hypotheses.
use ivckolpak.Prelude.{◌≡◌, refl, List, [], ◌∷◌, ◌++◌, true, false, none, some, arith}
use ivckolpak.Prelude.Int.{ℤ, pos, negsuc, ◌≤ℤ◌, ◌+ℤ◌, ◌-ℤ◌}
use ivckolpak.Prelude.Bytes.{codes}
use ivckolpak.Prelude.Double.{FloatOps, ltb_double, leb_double}
use ivckolpak.Prelude.Word.{add64, sub64}
use ivckolpak.Alarm.Event.{AlarmEvent, blank}
use ivckolpak.Config.Types.{CameraConfig}
use ivckolpak.Config.Filename.{LocalTime}
use ivckolpak.Session.Packet.{AvPacket, Packet}
use ivckolpak.Session.PreBuffer
use ivckolpak.Session.PreBuffer.{PreBuffer, add_to_pre_buffer, drop_oldest_gop}
use ivckolpak.Session.PreBuffer.Sync.{InSync}
use ivckolpak.Session.PreBuffer.Drop.{DropsGop, drop_oldest_gop-DropsGop}
use ivckolpak.Session.PreBuffer.Limits.{IsBounded, Keeps}
use ivckolpak.Session.PreBuffer.Add.{add_to_pre_buffer_total, add_to_pre_buffer_diverges}
use ivckolpak.Session.Analyzer.{StreamAnalyzer, fresh, finalize, rate_of}
use ivckolpak.Session.Analyzer.Sound.{IsStep, IsSound}
use ivckolpak.Session.Analyzer.Median.{IsMedian, finalize_rate}
use ivckolpak.Session.State.{
  pre_buffer, recording, finalizing, SessionConfig, StreamInfo, Muxer, opened, trailed, closed,
  removed, notified, Session, new_session, Library, OpenReply, Moment, RotateReply,
}
use ivckolpak.Session.Push.{chunk_limit_reached}
use ivckolpak.Session.Rotate.{begin_finalize, complete}
use ivckolpak.Session.Control.{start_event, stop_event, force_stop}
use ivckolpak.Session.Valid.{IsValid}
use ivckolpak.Session.Run.{Call, push, start, stop, halt, run, run_total}
use ivckolpak.Session.Record.{Starts, start_event_records}
use ivckolpak.Session.Chunks.{rotation_ignores_stop}
use ivckolpak.Session.Limit.Calls.{chunk_idx_bounded}
use ivckolpak.Session.Notify.{force_stop_notifies_removed}

abbrev key_packet : AvPacket
key_packet = record { is_key = true; pts = pos 0; dts = pos 0; size = 1000; stream_index = pos 0 }

abbrev delta_packet : AvPacket
delta_packet = record {
  is_key = false;
  pts = pos 3600;
  dts = pos 3600;
  size = 200;
  stream_index = pos 0;
}

abbrev key : Packet
key = record { pkt = some key_packet; is_keyframe = true; pts = pos 0; size = 1000 }

abbrev delta : Packet
delta = record { pkt = some delta_packet; is_keyframe = false; pts = pos 3600; size = 200 }

abbrev two_gops : PreBuffer
two_gops = record { packets = key ∷ delta ∷ key ∷ delta ∷ []; iframe_count = pos 2; bytes = 2400 }

abbrev two_gops-InSync : InSync two_gops
two_gops-InSync = record { counted = refl; summed = refl; small = omega arith }

abbrev two_gops-IsBounded : IsBounded (pos 2) two_gops
two_gops-IsBounded = record {
  key_limit = omega arith;
  byte_limit = omega arith;
  packet_limit = omega arith;
}

-- The third key frame drives the first group out.
third_key :
    add_to_pre_buffer (pos 2) key two_gops
    ≡ some (record { packets = key ∷ delta ∷ key ∷ []; iframe_count = pos 2; bytes = 2200 })
unfolding add_to_pre_buffer PreBuffer.drop_excess drop_oldest_gop PreBuffer.append
    PreBuffer.enforce_limits ◌+ℤ◌ ◌-ℤ◌ add64 sub64
third_key = refl

drop_oldest_gop-DropsGop_example : DropsGop two_gops (drop_oldest_gop two_gops)
drop_oldest_gop-DropsGop_example = drop_oldest_gop-DropsGop two_gops two_gops-InSync (omega arith)

add_to_pre_buffer_total_example :
    (c : PreBuffer) × (add_to_pre_buffer (pos 2) key two_gops ≡ some c)
    × Keeps (pos 2) (two_gops.packets ++ key ∷ []) c
add_to_pre_buffer_total_example =
    add_to_pre_buffer_total 2 key key_packet two_gops refl (omega arith) two_gops-InSync
      two_gops-IsBounded

add_to_pre_buffer_diverges_example : add_to_pre_buffer (negsuc 0) key two_gops ≡ none
add_to_pre_buffer_diverges_example =
    add_to_pre_buffer_diverges 0 key key_packet two_gops refl (omega arith) two_gops-InSync
      (omega arith)

abbrev no_ops : FloatOps
no_ops = record {
  sub = λ x y. x;
  mul = λ x y. x;
  div = λ x y. x;
  abs = λ x. x;
  of_int = λ x. 0;
  to_int = λ x. pos 25000;
}

-- Time stamps are left alone, and the clock counts whole seconds as bit patterns from 1.0 on.
abbrev lib : Library
lib = record {
  rescale_ts = λ p a b. p;
  q2d = λ r. 0;
  ops = no_ops;
  seconds = λ a b. 0x4000_0000_0000_0000;
}

abbrev analyzed : StreamAnalyzer
analyzed = record fresh {
  first_pts = pos 0;
  last_pts = pos 7200;
  total_frames = 3;
  pts_diffs = pos 3600 ∷ pos 3600 ∷ [];
}

analyzed-IsSound : IsSound analyzed
analyzed-IsSound = record { steps = omega arith; seen = λ h. (refl, refl) }

finalize_rate_example :
    (d : ℤ) × IsMedian analyzed.pts_diffs d
    × IsStep d
    × ((finalize no_ops analyzed).detected_fps ≡ rate_of no_ops analyzed.time_base d)
finalize_rate_example = finalize_rate no_ops analyzed analyzed-IsSound refl

abbrev camera : CameraConfig
camera = record {
  name = codes "Door";
  description = [];
  serialid = codes "CAM1";
  rtsp_url = codes "rtsp://10.0.0.7/";
  target_dir = codes "/rec";
  filename_format = codes "%{cam_id}_v%v_%e.mp4";
  on_event_start = [];
  on_event_stop = [];
  on_video_save = codes "save";
  on_rtsp_lost = [];
  on_rtsp_found = [];
  pre_buffer_iframes = pos 2;
  post_buffer_iframes = pos 1;
  max_chunk_kbytes = pos 1;
  max_event_chunks = pos 5;
  reconnect_delay_ms = pos 3000;
  reconnect_max_delay_ms = pos 30000;
  max_chunk_duration_time_s = 0;
  max_event_total_duration_s = 0;
  rtsp_over_udp = false;
}

abbrev config : SessionConfig
config = record {
  camera_cfg = camera;
  pre_buffer_iframes = pos 2;
  post_buffer_iframes = pos 1;
  on_video_save = true;
}

abbrev noon : LocalTime
noon = record {
  year = codes "2026";
  month = codes "01";
  day = codes "02";
  hour = codes "12";
  minute = codes "00";
  second = codes "00";
  time = codes "12:00:00";
}

abbrev at_noon : Moment
at_noon = record { now = 0; local = noon }

abbrev works : OpenReply
works = record {
  alloc_ok = true;
  open_ok = true;
  stream_ok = true;
  header_ok = true;
  time_base = record { num = pos 1; den = pos 90000 };
}

abbrev rotates : RotateReply
rotates = record { trailer_ok = true; reopen = works; moment = at_noon }

abbrev info : StreamInfo
info = record {
  time_base = record { num = pos 1; den = pos 90000 };
  frame_rate = record { num = pos 25; den = pos 1 };
  valid = true;
}

abbrev alarm : AlarmEvent
alarm = record blank { serial_id = codes "CAM1"; status = codes "Start"; type = codes "Alarm" }

abbrev calls : List Call
calls =
    push 0 rotates (some key_packet)
    ∷ start at_noon works alarm (some 7) info
    ∷ push 0 rotates (some delta_packet)
    ∷ push 0 rotates (some key_packet)
    ∷ stop
    ∷ push 0 rotates (some key_packet)
    ∷ halt true
    ∷ []

run_total_example : (t : Session) × (run lib calls (new_session config) ≡ some t) × IsValid t
run_total_example = run_total lib config calls (omega arith)

abbrev waiting : Session
waiting = record (new_session config) { pre = two_gops; state = pre_buffer }

start_event_records_example :
    Starts lib info.time_base waiting (start_event lib at_noon works alarm (some 7) info waiting)
start_event_records_example =
    start_event_records lib at_noon works alarm 7 info waiting refl (refl, refl, refl, refl)

abbrev file : Muxer
file = record {
  path = codes "/rec/CAM1_v0_1.mp4";
  has_pb = true;
  codecpar = 7;
  time_base = info.time_base;
  avg_frame_rate = info.frame_rate;
}

-- A session that records into `file`, with 2000 bytes in the chunk.
abbrev busy : Session
busy = record (new_session config) {
  state = recording;
  pre = PreBuffer.empty;
  out_fmt_ctx = some file;
  out_stream = true;
  current_filename = codes "/rec/CAM1_v0_1.mp4";
  chunk_bytes = 2000;
  chunk_idx = pos 0;
  effects = opened (codes "/rec/CAM1_v0_1.mp4") ∷ [];
  cfg = config;
}

busy-IsValid : IsValid busy
busy-IsValid = record {
  limit = omega arith;
  phase = refl;
  muxer = (refl, refl, refl, refl);
  balanced = omega arith;
}

busy-limit : chunk_limit_reached lib 0 busy ≡ true
unfolding chunk_limit_reached ltb_double leb_double
busy-limit = refl

chunk_idx_bounded_example :
    (run_total lib config calls (omega arith)).0.chunk_idx ≤ℤ config.camera_cfg.max_event_chunks
chunk_idx_bounded_example =
    chunk_idx_bounded lib config calls (run_total lib config calls (omega arith)).0 refl
      (run_total lib config calls (omega arith)).1

rotation_ignores_stop_example :
    ((begin_finalize no_ops busy).0.state ≡ finalizing)
    × (stop_event (begin_finalize no_ops busy).0 ≡ (begin_finalize no_ops busy).0)
    × ((complete
          (begin_finalize no_ops busy).1
          rotates
          (stop_event (begin_finalize no_ops busy).0)).state
        ≡ recording)
rotation_ignores_stop_example = rotation_ignores_stop no_ops file rotates busy refl refl

force_stop_notifies_removed_example :
    (force_stop false busy).effects
    ≡ busy.effects
      ++ trailed file.path
        ∷ closed file.path
        ∷ removed busy.current_filename
        ∷ notified busy.current_filename
        ∷ []
force_stop_notifies_removed_example =
    force_stop_notifies_removed file busy refl refl (refl, refl, refl, refl) refl
