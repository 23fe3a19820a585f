-- ===== src/Session/Run.antt =====
-- A session over a sequence of calls, each of which runs to its end before the next.
use ivckolpak.Prelude.{ℕ, ◌≡◌, refl, ◌∙◌, ap, List, [], ◌∷◌, Bool, Option, none, some, arith}
use ivckolpak.Prelude.Int.{pos, ◌≤ℤ◌}
use ivckolpak.Alarm.Event.{AlarmEvent}
use ivckolpak.Session.Packet.{AvPacket}
use ivckolpak.Session.State.{
  SessionConfig, CodecParams, StreamInfo, Session, new_session, Library, OpenReply, Moment,
  RotateReply,
}
use ivckolpak.Session.Push.{push_packet}
use ivckolpak.Session.Control.{start_event, continue_event, stop_event, force_stop, shutdown}
use ivckolpak.Session.Valid.{IsValid}
use ivckolpak.Session.Valid.Rotate.{empty-InSync, empty-IsBounded}
use ivckolpak.Session.Valid.Push.{push_packet_total}
use ivckolpak.Session.Valid.Control.{
  start_event-IsValid, continue_event-IsValid, stop_event-IsValid,
}
use ivckolpak.Session.Valid.Control.End.{force_stop-IsValid, shutdown-IsValid}

-- A call, with what FFmpeg returns in it and what the clocks read.
pub data Call : Type 0 where
  push : ℕ → RotateReply → Option AvPacket → Call
  start : Moment → OpenReply → AlarmEvent → Option CodecParams → StreamInfo → Call
  continue : AlarmEvent → Call
  stop : Call
  force : Bool → Call
  halt : Bool → Call

-- None: the call does not return.
unfoldable pub call : Library → Call → Session → Option Session
unfolding push_packet start_event continue_event stop_event force_stop shutdown
call lib (push now r p) s = push_packet lib now r p s
call lib (start at r evt codec info) s = some (start_event lib at r evt codec info s)
call lib (continue evt) s = some (continue_event evt s)
call lib stop s = some (stop_event s)
call lib (force ok) s = some (force_stop ok s)
call lib (halt ok) s = some (shutdown ok s)

infixl 5 ◌>>=◌
abbrev pub ◌>>=◌ : Option Session → (Session → Option Session) → Option Session
none >>= f = none
some s >>= f = f s

unfoldable pub run : Library → List Call → Session → Option Session
unfolding call
run lib [] s = some s
run lib (c ∷ cs) s = do t ← call lib c s; run lib cs t

pub new_session-IsValid :
    (cfg : SessionConfig) → pos 0 ≤ℤ cfg.pre_buffer_iframes → IsValid (new_session cfg)
unfolding new_session
new_session-IsValid cfg h = record {
  limit = h;
  phase = (refl, empty-InSync, empty-IsBounded cfg.pre_buffer_iframes h);
  muxer = tt;
  balanced = omega arith;
}

call_total :
    (lib : Library) (c : Call) (s : Session)
    → IsValid s
    → (t : Session) × (call lib c s ≡ some t) × IsValid t
unfolding call
call_total lib (push now r p) s v = push_packet_total lib now r p s v
call_total lib (start at r evt codec info) s v =
    (_, refl, start_event-IsValid lib at r evt codec info s v)
call_total lib (continue evt) s v = (_, refl, continue_event-IsValid evt s v)
call_total lib stop s v = (_, refl, stop_event-IsValid s v)
call_total lib (force ok) s v = (_, refl, force_stop-IsValid ok s v)
call_total lib (halt ok) s v = (_, refl, shutdown-IsValid ok s v)

run_from_total :
    (lib : Library) (cs : List Call) (s : Session)
    → IsValid s
    → (t : Session) × (run lib cs s ≡ some t) × IsValid t
unfolding run
run_from_total lib [] s v = (s, refl, v)
run_from_total lib (c ∷ cs) s v =
    let (t, e, w) = call_total lib c s v in
    let (u, f, x) = run_from_total lib cs t w in (u, ap (λ o. o >>= λ y. run lib cs y) e ∙ f, x)

-- A session whose `pre_buffer_iframes` is not negative returns from every call of every sequence, whatever
-- FFmpeg returns; and it is valid after it. In PRE_BUFFER the counters of the pre-buffer agree with its packets
-- and its limits hold; in RECORDING and POST_BUFFER the pre-buffer is empty; in IDLE there is no output; FINALIZING
-- is the state after no call. At most one file is open, namely the current one, and every other file that was
-- opened has been closed.
pub run_total :
    (lib : Library) (cfg : SessionConfig) (cs : List Call)
    → pos 0 ≤ℤ cfg.pre_buffer_iframes
    → (t : Session) × (run lib cs (new_session cfg) ≡ some t) × IsValid t
run_total lib cfg cs h = run_from_total lib cs (new_session cfg) (new_session-IsValid cfg h)
