-- ===== src/Stream/Lifecycle/Idle.antt =====
-- rtsp_stream.cpp: a stream between a stop and the next start.
pub mod Restarts
use ivckolpak.Prelude.{
  ℕ, ◌≡◌, refl, sym, ap, ◌∙◌, Bool, true, false, not, ◌&&◌, List, [], ◌∷◌, none, if◌then◌else◌,
  arith,
}
use mathlib.Core.Path.{subst}
use ivckolpak.Session.Packet.{AvPacket}
use ivckolpak.Stream.State.{Stream, StreamConfig, new_stream, get_stream_info}
use ivckolpak.Stream.Input.{InputReply, open_input, close_input}
use ivckolpak.Stream.Read.{
  Read, Ending, read_loop, read_frame, interrupted, frame, exit, again, failed,
}
use ivckolpak.Stream.Reconnect.{
  Round, notify_lost, notify_found, not_opened, after_reads, opened, after_open, round, go_on, run,
}
use ivckolpak.Stream.Lifecycle.{Lifecycle, new_lifecycle, start, stop, restarts, IsIdle}

-- An input that is not open has left nothing.
record IsClean (s : Stream) : Type 0 where
  codec : s.fmt_ctx ≡ false → s.codec_params ≡ none
  info : s.fmt_ctx ≡ false → s.info_valid ≡ false

close_input-IsIdle : (s : Stream) → IsClean s → s.alive ≡ false → IsIdle (close_input s)
unfolding close_input get_stream_info
close_input-IsIdle s c a = record {
  alive = ground arith;
  input = ground arith;
  codec = ground (arith, c.codec);
  info = ground (arith, c.info);
}

open_input-IsClean : (r : InputReply) (s : Stream) → IsClean s → IsClean (open_input r s).0
unfolding open_input
open_input-IsClean r s c = record { codec = ground (arith, c.codec); info = ground (arith, c.info) }

-- Two streams with the same connection.
record SameInput (s t : Stream) : Type 0 where
  fmt_ctx : t.fmt_ctx ≡ s.fmt_ctx
  codec : t.codec_params ≡ s.codec_params
  info : t.info_valid ≡ s.info_valid
  alive : t.alive ≡ s.alive

notify_lost-SameInput : (s : Stream) → SameInput s (notify_lost s)
unfolding notify_lost
notify_lost-SameInput s = record {
  fmt_ctx = ground arith;
  codec = ground arith;
  info = ground arith;
  alive = ground arith;
}

notify_found-SameInput : (s : Stream) → SameInput s (notify_found s)
unfolding notify_found
notify_found-SameInput s = record {
  fmt_ctx = ground arith;
  codec = ground arith;
  info = ground arith;
  alive = ground arith;
}

read_frame-SameInput :
    (now : ℕ) (p : AvPacket) (c : Bool) (s : Stream) → SameInput s (read_frame now p c s)
unfolding read_frame
read_frame-SameInput now p c s = record {
  fmt_ctx = ground arith;
  codec = ground arith;
  info = ground arith;
  alive = ground arith;
}

SameInput-trans : (s t u : Stream) → SameInput s t → SameInput t u → SameInput s u
SameInput-trans s t u a b = record {
  fmt_ctx = b.fmt_ctx ∙ a.fmt_ctx;
  codec = b.codec ∙ a.codec;
  info = b.info ∙ a.info;
  alive = b.alive ∙ a.alive;
}

SameInput-refl : (s : Stream) → SameInput s s
SameInput-refl s = record { fmt_ctx = refl; codec = refl; info = refl; alive = refl }

read_loop-SameInput : (rs : List Read) (s : Stream) → SameInput s (read_loop rs s).0
unfolding read_loop
read_loop-SameInput [] s = SameInput-refl s
read_loop-SameInput (interrupted ∷ rs) s = SameInput-refl s
read_loop-SameInput (frame now p c ∷ rs) s =
    SameInput-trans s _ _ (read_frame-SameInput now p c s)
      (read_loop-SameInput rs (read_frame now p c s))
read_loop-SameInput (exit ∷ rs) s = SameInput-refl s
read_loop-SameInput (again ∷ rs) s = read_loop-SameInput rs s
read_loop-SameInput (failed stopped ∷ rs) s = SameInput-refl s

IsClean-along : (s t : Stream) → SameInput s t → IsClean s → IsClean t
IsClean-along s t e c = record {
  codec = λ h. e.codec ∙ c.codec (sym e.fmt_ctx ∙ h);
  info = λ h. e.info ∙ c.info (sym e.fmt_ctx ∙ h);
}

IsIdle-along : (s t : Stream) → SameInput s t → IsIdle s → IsIdle t
unfolding get_stream_info
IsIdle-along s t e i = record {
  alive = e.alive ∙ i.alive;
  input = e.fmt_ctx ∙ i.input;
  codec = e.codec ∙ i.codec;
  info = e.info ∙ i.info;
}

IsIdle-IsClean : (s : Stream) → IsIdle s → IsClean s
unfolding get_stream_info
IsIdle-IsClean s i = record { codec = λ h. i.codec; info = λ h. i.info }
