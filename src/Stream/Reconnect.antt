-- ===== src/Stream/Reconnect.antt =====
-- rtsp_stream.cpp `run`: the loop that connects, reads and connects again.
pub mod Backoff
pub mod Notices
pub mod Exit
use ivckolpak.Prelude.{
  ℕ, suc, ◌+◌, ◌≡◌, refl, Bool, true, false, not, ◌&&◌, List, [], ◌∷◌, ◌++◌, Option, none, some,
  if◌then◌else◌,
}
use ivckolpak.Prelude.Int.{ℤ, pos, ◌*ℤ◌, leb_ℤ, ltb_ℤ, is_pos}
use ivckolpak.Prelude.Bytes.{is_empty}
use ivckolpak.Stream.State.{
  Stream, StreamConfig, lost_callback, found_callback, lost_script, found_script, when,
}
use ivckolpak.Stream.Input.{InputReply, open_input, close_input}
use ivckolpak.Stream.Read.{Read, Ending, read_loop}

-- What one round of the loop meets: the reply to `open_input`, the clock, and the reads.
pub record Round : Type 0 where
  pub reply : InputReply
  pub now : ℕ
  pub reads : List Read
  pub stop_after : Bool

-- The connection was there and is lost: its two notifications.
unfoldable pub notify_lost : Stream → Stream
notify_lost s =
    if s.was_connected
    then record s {
      was_connected = false;
      acts =
          s.acts
          ++ (when s.cfg.internal_lost_callback lost_callback
              ++ when (not (is_empty s.cfg.on_rtsp_lost) && s.cfg.camera_config) lost_script);
    }
    else s

unfoldable pub notify_found : Stream → Stream
notify_found s = if s.was_connected then s else record s {
  was_connected = true;
  acts =
      s.acts
      ++ (when s.cfg.internal_found_callback found_callback
          ++ when (not (is_empty s.cfg.on_rtsp_found) && s.cfg.camera_config) found_script);
}

-- `std::min(current_delay * 2, reconnect_max_delay_ms)`
unfoldable pub next_delay : ℤ → ℤ → ℤ
unfolding ◌*ℤ◌
next_delay delay limit = let d = delay *ℤ pos 2 in if ltb_ℤ limit d then limit else d

-- The branch where the input does not open; the flag says whether the loop goes on.
unfoldable pub not_opened : Stream → Stream × Bool
unfolding notify_lost close_input next_delay
not_opened s =
    let t = notify_lost (record (close_input s) { alive = false }) in
    if is_pos t.cfg.max_reconnect_attempts
      && leb_ℤ t.cfg.max_reconnect_attempts (pos t.reconnect_attempts)
    then (t, false)
    else (
      record t {
        current_delay = next_delay t.current_delay t.cfg.reconnect_max_delay_ms;
        reconnect_attempts = suc t.reconnect_attempts;
      },
      true,
    )

-- After the read loop.
unfoldable pub after_reads : Bool → Ending → Stream → Stream × Bool
unfolding notify_lost close_input
after_reads stop e s =
    let t = record (close_input (record s { watchdog_enabled = false })) { alive = false } in
    if e.connection_lost && not stop then (notify_lost t, true) else (t, not stop)

-- The input is open.
unfoldable pub opened : Round → Stream → Stream × Bool
unfolding notify_found read_loop after_reads
opened r s =
    let t = notify_found (record s {
      reconnect_attempts = 0;
      current_delay = s.cfg.reconnect_delay_ms;
      alive = true;
    }) in
    let (u, e) =
      read_loop r.reads (record t { last_packet_time_ms = r.now; watchdog_enabled = true }) in
    after_reads (if e.stopped then true else r.stop_after) e u

unfoldable pub after_open : Round → Bool → Stream → Stream × Bool
unfolding opened not_opened
after_open r true s = opened r s
after_open r false s = not_opened s

-- One round of the loop.
unfoldable pub round : Round → Stream → Stream × Bool
unfolding open_input after_open
round r s =
    let (t, ok) =
      open_input r.reply (record s { interrupt_flag = false; watchdog_enabled = false }) in
    after_open r ok t

unfoldable pub go_on : (Stream → Stream) → Stream × Bool → Stream
go_on more (s, true) = more s
go_on more (s, false) = s

-- The loop; the list ends where a stop is requested at its head.
unfoldable pub run : List Round → Stream → Stream
unfolding round go_on
run [] s = s
run (r ∷ rs) s = go_on (run rs) (round r s)
