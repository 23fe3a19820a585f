-- ===== src/Stream/Lifecycle/Idle/Restarts.antt =====
-- rtsp_stream.cpp: a stream over the rounds of its thread, and over starts and stops.
use ivckolpak.Prelude.{
  ◌≡◌, refl, sym, ap, Bool, true, false, not, ◌&&◌, List, [], ◌∷◌, if◌then◌else◌, arith,
}
use mathlib.Core.Path.{subst}
use ivckolpak.Stream.State.{Stream, StreamConfig, new_stream, get_stream_info}
use ivckolpak.Stream.Input.{open_input, close_input}
use ivckolpak.Stream.Read.{Ending, read_loop}
use ivckolpak.Stream.Reconnect.{
  Round, notify_lost, notify_found, not_opened, after_reads, opened, after_open, round, go_on, run,
}
use ivckolpak.Stream.Lifecycle.{Lifecycle, new_lifecycle, enter_run, start, stop, restarts, IsIdle}
use ivckolpak.Stream.Lifecycle.Idle.{
  IsClean, IsClean-along, IsIdle-IsClean, IsIdle-along, close_input-IsIdle, notify_found-SameInput,
  notify_lost-SameInput, open_input-IsClean, read_loop-SameInput,
}

abbrev shut : Stream → Stream
shut s = record (close_input s) { alive = false }

shut-IsIdle : (s : Stream) → IsClean s → IsIdle (shut s)
unfolding close_input get_stream_info
shut-IsIdle s c = record {
  alive = refl;
  input = ground arith;
  codec = ground (arith, c.codec);
  info = ground (arith, c.info);
}

not_opened-IsIdle : (s : Stream) → IsClean s → IsIdle (not_opened s).0
unfolding not_opened
not_opened-IsIdle s c =
    let lost : IsIdle (notify_lost (shut s)) =
      IsIdle-along (shut s) _ (notify_lost-SameInput (shut s)) (shut-IsIdle s c) in
    IsIdle-along (notify_lost (shut s)) _
      (record {
        fmt_ctx = ground arith;
        codec = ground arith;
        info = ground arith;
        alive = ground arith;
      })
      lost

choose-IsIdle :
    (b : Bool) (p q : Stream × Bool) → IsIdle p.0 → IsIdle q.0 → IsIdle (if b then p else q).0
choose-IsIdle true p q i j = i
choose-IsIdle false p q i j = j

after_reads-IsIdle :
    (stopping : Bool) (e : Ending) (s : Stream) → IsClean s → IsIdle (after_reads stopping e s).0
unfolding after_reads
after_reads-IsIdle stopping e s c =
    let t = shut (record s { watchdog_enabled = false }) in
    let idle : IsIdle t =
      shut-IsIdle (record s { watchdog_enabled = false })
        (record { codec = c.codec; info = c.info }) in
    choose-IsIdle (e.connection_lost && not stopping) (notify_lost t, true) (t, not stopping)
      (IsIdle-along t (notify_lost t) (notify_lost-SameInput t) idle) idle

opened-IsIdle : (r : Round) (s : Stream) → IsClean s → IsIdle (opened r s).0
unfolding opened
opened-IsIdle r s c =
    let first = record s {
      reconnect_attempts = 0;
      current_delay = s.cfg.reconnect_delay_ms;
      alive = true;
    } in
    let clean : IsClean first = record { codec = c.codec; info = c.info } in
    let t = notify_found first in
    let found : IsClean t = IsClean-along first t (notify_found-SameInput first) clean in
    let ready = record t { last_packet_time_ms = r.now; watchdog_enabled = true } in
    let (u, e) = read_loop r.reads ready in
    after_reads-IsIdle (if e.stopped then true else r.stop_after) e u (
      IsClean-along ready u (read_loop-SameInput r.reads ready)
        (record { codec = found.codec; info = found.info }))

after_open-IsIdle : (r : Round) (ok : Bool) (s : Stream) → IsClean s → IsIdle (after_open r ok s).0
unfolding after_open
after_open-IsIdle r true s c = opened-IsIdle r s c
after_open-IsIdle r false s c = not_opened-IsIdle s c

round-IsIdle : (r : Round) (s : Stream) → IsIdle s → IsIdle (round r s).0
unfolding round
round-IsIdle r s i =
    let ready = record s { interrupt_flag = false; watchdog_enabled = false } in
    let clean = IsIdle-IsClean s i in
    let before : IsClean ready = record { codec = clean.codec; info = clean.info } in
    after_open-IsIdle r (open_input r.reply ready).1 (open_input r.reply ready).0
      (open_input-IsClean r.reply ready before)

go_on-IsIdle :
    (more : Stream → Stream) (p : Stream × Bool)
    → IsIdle p.0
    → ((s : Stream) → IsIdle s → IsIdle (more s))
    → IsIdle (go_on more p)
unfolding go_on
go_on-IsIdle more (s, true) i f = f s i
go_on-IsIdle more (s, false) i f = i

run-IsIdle : (rounds : List Round) (s : Stream) → IsIdle s → IsIdle (run rounds s)
unfolding run
run-IsIdle [] s i = i
run-IsIdle (r ∷ rs) s i =
    go_on-IsIdle (run rs) (round r s) (round-IsIdle r s i) (λ t j. run-IsIdle rs t j)

stop_started :
    (rounds : List Round) (x : Lifecycle)
    → x.started ≡ false
    → IsIdle x.stream
    → IsIdle (stop rounds (start x)).stream × ((stop rounds (start x)).started ≡ false)
unfolding stop start get_stream_info
stop_started rounds x h i =
    let s = enter_run x.stream in
    let entered : IsIdle s =
      unfold enter_run in
      record { alive = i.alive; input = i.input; codec = i.codec; info = i.info } in
    let ran = run-IsIdle rounds s entered in
    let closed = close_input-IsIdle (run rounds s) (IsIdle-IsClean (run rounds s) ran) ran.alive in
    let begun : Lifecycle = record { stream = s; started = true } in
    let begins : start x ≡ begun = ap (λ b. if b then x else begun) h in
    subst (λ y. IsIdle (stop rounds y).stream × ((stop rounds y).started ≡ false)) (sym begins)
      (
        record {
          alive = closed.alive;
          input = closed.input;
          codec = closed.codec;
          info = closed.info;
        },
        refl,
      )

restarts-from :
    (lives : List (List Round)) (x : Lifecycle)
    → IsIdle x.stream
    → x.started ≡ false
    → IsIdle (restarts lives x).stream × ((restarts lives x).started ≡ false)
unfolding restarts
restarts-from [] x i h = (i, h)
restarts-from (rounds ∷ lives) x i h =
    let (j, k) = stop_started rounds x h i in restarts-from lives (stop rounds (start x)) j k

-- Whenever a stream is not in a connection it shows none: from a new stream on, after a start and a stop the
-- stream is idle again, whatever the rounds of its thread met, and ready for another start: it is not alive,
-- its input is closed, and it hands out neither codec parameters nor stream information. The same holds after
-- every further start and stop.
pub restarts-IsIdle :
    (lives : List (List Round)) (cfg : StreamConfig)
    → IsIdle (restarts lives (new_lifecycle cfg)).stream
      × ((restarts lives (new_lifecycle cfg)).started ≡ false)
unfolding new_lifecycle
restarts-IsIdle lives cfg =
    restarts-from lives (new_lifecycle cfg)
      (unfold new_stream get_stream_info in
        record { alive = refl; input = refl; codec = refl; info = refl })
      refl
