-- ===== src/Stream/Input.antt =====
-- rtsp_stream.cpp: opening and closing the input.
use ivckolpak.Prelude.{Bool, true, false, not, Option, none, some, if◌then◌else◌}
use ivckolpak.Prelude.Int.{ℤ, pos, negsuc, ltb_ℤ}
use ivckolpak.Session.Analyzer.{Rational}
use ivckolpak.Session.State.{CodecParams}
use ivckolpak.Stream.State.{Stream}

-- What FFmpeg returns in one run of `open_input`.
pub record InputReply : Type 0 where
  pub alloc_ok : Bool
  pub open_ok : Bool
  pub info_ok : Bool
  pub best_stream : ℤ
  pub time_base : Rational
  pub frame_rate : Rational
  pub codec : CodecParams
  pub copy_ok : Bool

-- The stream is there: its parameters are copied.
use_stream : InputReply → Stream → Stream × Bool
use_stream r s =
    let t = record s { time_base = r.time_base; frame_rate = r.frame_rate } in
    if r.copy_ok
    then (record t { codec_params = some r.codec; info_valid = true; fmt_ctx = true }, true)
    else (record t { codec_params = none; info_valid = false }, false)

find_stream : InputReply → Stream → Stream × Bool
unfolding use_stream
find_stream r s =
    let t = record s { video_stream_idx = r.best_stream } in
    if ltb_ℤ r.best_stream (pos 0) then (t, false) else use_stream r t

unfoldable pub open_input : InputReply → Stream → Stream × Bool
unfolding find_stream
open_input r s =
    if s.fmt_ctx
    then (s, true)
    else if not r.alloc_ok
    then (s, false)
    else if not r.open_ok
    then (s, false)
    else if not r.info_ok
    then (s, false)
    else find_stream r s

unfoldable pub close_input : Stream → Stream
close_input s = if not s.fmt_ctx then s else record s {
  fmt_ctx = false;
  video_stream_idx = negsuc 0;
  codec_params = none;
  info_valid = false;
}

unfoldable pub get_codec_params : Bool → Stream → Option CodecParams
get_codec_params copy_ok s = if copy_ok then s.codec_params else none
