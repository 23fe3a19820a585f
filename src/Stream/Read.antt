-- ===== src/Stream/Read.antt =====
-- rtsp_stream.cpp: the inner loop of `run`, and the watchdog.
use ivckolpak.Prelude.{ℕ, Bool, true, false, not, List, [], ◌∷◌, ◌++◌, ltb, if◌then◌else◌}
use ivckolpak.Prelude.Int.{eqb_ℤ, pos_part}
use ivckolpak.Prelude.Word.{add64, sub64}
use ivckolpak.Session.Packet.{AvPacket}
use ivckolpak.Stream.State.{Stream, packet, when}

-- What a round of the loop meets: the flag of the watchdog, a packet at a time and whether its clone is
-- made, AVERROR_EXIT, EAGAIN, or another error and whether a stop is requested by then.
pub data Read : Type 0 where
  interrupted : Read
  frame : ℕ → AvPacket → Bool → Read
  exit again : Read
  failed : Bool → Read

-- A packet of the video stream goes to the callback.
unfoldable pub read_frame : ℕ → AvPacket → Bool → Stream → Stream
read_frame now p cloned s =
    let t = record s { last_packet_time_ms = now } in
    if eqb_ℤ p.stream_index t.video_stream_idx
    then record t {
      total_bytes_read = add64 t.total_bytes_read p.size;
      acts = t.acts ++ when cloned (packet p);
    }
    else t

-- How the loop ends: `connection_lost`, and whether a stop was seen.
pub record Ending : Type 0 where
  pub connection_lost : Bool
  pub stopped : Bool

-- The loop; the list ends where a stop is requested.
unfoldable pub read_loop : List Read → Stream → Stream × Ending
unfolding read_frame
read_loop [] s = (s, record { connection_lost = false; stopped = true })
read_loop (interrupted ∷ rs) s = (s, record { connection_lost = true; stopped = false })
read_loop (frame now p cloned ∷ rs) s = read_loop rs (read_frame now p cloned s)
read_loop (exit ∷ rs) s = (s, record { connection_lost = false; stopped = false })
read_loop (again ∷ rs) s = read_loop rs s
read_loop (failed stopped ∷ rs) s = (s, record { connection_lost = not stopped; stopped = stopped })

-- One round of `watchdog_loop`, after its sleep: `elapsed` is a `uint64_t`.
unfoldable pub watchdog : ℕ → Stream → Stream
watchdog now s =
    if not s.watchdog_enabled
    then s
    else if ltb (pos_part s.cfg.read_timeout_ms) (sub64 now s.last_packet_time_ms)
    then record s { interrupt_flag = true; watchdog_enabled = false }
    else s
