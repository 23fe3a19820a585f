-- ===== src/Stream/Tests.antt =====
-- A camera that cannot be reached, and one whose connection breaks, with the theorems at them.
use ivckolpak.Prelude.{◌*◌, ◌^◌, ◌≡◌, refl, true, false, [], ◌∷◌, some, arith, min}
use ivckolpak.Prelude.Int.{pos}
use ivckolpak.Prelude.Bytes.{codes}
use ivckolpak.Session.Packet.{AvPacket}
use ivckolpak.Stream.State.{found_callback, Stream, StreamConfig, new_stream}
use ivckolpak.Stream.Input.{InputReply, open_input}
use ivckolpak.Stream.Read.{frame, failed, exit}
use ivckolpak.Stream.Reconnect.{Round, round, run}
use ivckolpak.Stream.Lifecycle.{IsIdle, new_lifecycle, restarts}
use ivckolpak.Stream.Lifecycle.Idle.Restarts.{restarts-IsIdle}
use ivckolpak.Stream.Reconnect.Backoff.{run_backoff}
use ivckolpak.Stream.Reconnect.Notices.{track, run_alternates}
use ivckolpak.Stream.Reconnect.Exit.{Silent, at_head, exit-Silent}

abbrev config : StreamConfig
config = record {
  reconnect_delay_ms = pos 3000;
  reconnect_max_delay_ms = pos 30000;
  max_reconnect_attempts = pos 0;
  read_timeout_ms = pos 10000;
  on_rtsp_lost = [];
  on_rtsp_found = codes "found";
  camera_config = true;
  internal_lost_callback = true;
  internal_found_callback = true;
}

abbrev works : InputReply
works = record {
  alloc_ok = true;
  open_ok = true;
  info_ok = true;
  best_stream = pos 0;
  time_base = record { num = pos 1; den = pos 90000 };
  frame_rate = record { num = pos 25; den = pos 1 };
  codec = 7;
  copy_ok = true;
}

abbrev refused : Round
refused = record {
  reply = record works { open_ok = false };
  now = 0;
  reads = [];
  stop_after = false;
}

abbrev image : AvPacket
image = record { is_key = true; pts = pos 0; dts = pos 0; size = 1000; stream_index = pos 0 }

abbrev broken : Round
broken = record {
  reply = works;
  now = 10;
  reads = frame 20 image true ∷ failed false ∷ [];
  stop_after = false;
}

abbrev breaks_off : Round
breaks_off = record broken { reads = exit ∷ [] }

run_backoff_example :
    ((run (refused ∷ refused ∷ refused ∷ refused ∷ []) (new_stream config)).current_delay
      ≡ pos (min (3000 * 2 ^ 4) 30000))
    × ((run (refused ∷ refused ∷ refused ∷ refused ∷ []) (new_stream config)).reconnect_attempts
        ≡ 4)
run_backoff_example =
    run_backoff config (refused ∷ refused ∷ refused ∷ refused ∷ []) 3000 30000 refl refl refl
      (omega arith) (refl, (refl, (refl, (refl, tt))))

run_alternates_example :
    track false (run (refused ∷ broken ∷ refused ∷ broken ∷ []) (new_stream config)).acts
    ≡ some (run (refused ∷ broken ∷ refused ∷ broken ∷ []) (new_stream config)).was_connected
run_alternates_example = run_alternates config (refused ∷ broken ∷ refused ∷ broken ∷ []) refl refl

abbrev connected : Stream
connected = record (new_stream config) { was_connected = true; acts = found_callback ∷ [] }

opens : (open_input works (at_head connected)).1 ≡ true
unfolding open_input new_stream
opens = refl

exit-Silent_example :
    ((round breaks_off connected).1 ≡ true)
    × Silent connected (round breaks_off connected).0
    × ((round breaks_off connected).0.alive ≡ false)
exit-Silent_example = exit-Silent breaks_off connected opens refl refl refl

restarts-IsIdle_example :
    IsIdle (restarts ((refused ∷ broken ∷ []) ∷ (broken ∷ []) ∷ []) (new_lifecycle config)).stream
    × ((restarts ((refused ∷ broken ∷ []) ∷ (broken ∷ []) ∷ []) (new_lifecycle config)).started
        ≡ false)
restarts-IsIdle_example = restarts-IsIdle ((refused ∷ broken ∷ []) ∷ (broken ∷ []) ∷ []) config
