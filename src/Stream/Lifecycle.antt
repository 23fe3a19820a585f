-- ===== src/Stream/Lifecycle.antt =====
-- rtsp_stream.cpp: `start` and `stop`, and the life of the threads between them.
pub mod Idle
use ivckolpak.Prelude.{
  ℕ, ◌≡◌, refl, sym, ap, ◌∙◌, Bool, true, false, not, ◌&&◌, List, [], ◌∷◌, Option, none, some,
  if◌then◌else◌, arith,
}
use mathlib.Core.Path.{subst}
use ivckolpak.Session.Packet.{AvPacket}
use ivckolpak.Stream.State.{Stream, StreamConfig, new_stream, get_stream_info}
use ivckolpak.Stream.Input.{InputReply, open_input, close_input}
use ivckolpak.Stream.Read.{
  Read, Ending, read_loop, read_frame, interrupted, frame, exit, again, failed,
}
use ivckolpak.Stream.Reconnect.{
  Round, notify_lost, notify_found, not_opened, after_reads, opened, after_open, round, go_on, run,
}

-- The stream, and whether `worker_` is joinable.
pub record Lifecycle : Type 0 where
  pub stream : Stream
  pub started : Bool

unfoldable pub new_lifecycle : StreamConfig → Lifecycle
unfolding new_stream
new_lifecycle cfg = record { stream = new_stream cfg; started = false }

-- The thread that `start` makes begins `run` with new local variables.
unfoldable pub enter_run : Stream → Stream
enter_run s = record s {
  reconnect_attempts = 0;
  current_delay = s.cfg.reconnect_delay_ms;
  was_connected = false;
}

unfoldable pub start : Lifecycle → Lifecycle
unfolding enter_run
start x = if x.started then x else record { stream = enter_run x.stream; started = true }

-- `stop`, where the worker's thread goes through `rounds` from its start until it is joined; the flags
-- that `stop` sets before act on what these rounds meet. Without a worker nothing happens.
unfoldable pub stop : List Round → Lifecycle → Lifecycle
unfolding run close_input
stop rounds x = if not x.started then x else record {
  stream = record (close_input (run rounds x.stream)) { interrupt_flag = false };
  started = false;
}

-- Starts and stops in turn, with the rounds of each life of the thread.
unfoldable pub restarts : List (List Round) → Lifecycle → Lifecycle
unfolding start stop
restarts [] x = x
restarts (rounds ∷ lives) x = restarts lives (stop rounds (start x))

-- A stream without a connection: what other threads see of it is that it is not alive and has neither
-- parameters nor information.
pub record IsIdle (s : Stream) : Type 0 where
  pub alive : s.alive ≡ false
  pub input : s.fmt_ctx ≡ false
  pub codec : s.codec_params ≡ none
  pub info : (get_stream_info s).valid ≡ false
