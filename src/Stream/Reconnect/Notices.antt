-- ===== src/Stream/Reconnect/Notices.antt =====
-- The notifications that a connection is found or lost.
use ivckolpak.Prelude.{
  ℕ, ◌≡◌, refl, sym, ◌∙◌, ap, Bool, true, false, not, ◌&&◌, List, [], ◌∷◌, ◌++◌, Option, none, some,
  arith, if◌then◌else◌, Bool-cases, inl, inr,
}
use ivckolpak.Prelude.Int.{eqb_ℤ}
use ivckolpak.Session.Packet.{AvPacket}
use ivckolpak.Stream.State.{
  Act, lost_callback, found_callback, lost_script, found_script, packet, Stream, StreamConfig,
  new_stream, when,
}
use ivckolpak.Stream.Input.{InputReply, open_input, close_input}
use ivckolpak.Stream.Read.{
  Read, interrupted, frame, exit, again, failed, Ending, read_frame, read_loop,
}
use ivckolpak.Stream.Reconnect.{
  Round, notify_lost, notify_found, not_opened, after_reads, opened, after_open, round, go_on, run,
}

-- The callbacks, read one after another: whether the connection is there after them; none where a
-- found one follows a found one, or a lost one a lost one.
abbrev pub track : Bool → List Act → Option Bool
track c [] = some c
track true (lost_callback ∷ es) = track false es
track false (lost_callback ∷ es) = none
track true (found_callback ∷ es) = none
track false (found_callback ∷ es) = track true es
track c (lost_script ∷ es) = track c es
track c (found_script ∷ es) = track c es
track c (packet p ∷ es) = track c es

track-append :
    (xs ys : List Act) (c d : Bool) → track c xs ≡ some d → track c (xs ++ ys) ≡ track d ys
track-append [] ys c d h = ground (arith, h)
track-append (lost_callback ∷ xs) ys true d h = track-append xs ys false d h
track-append (lost_callback ∷ xs) ys false d h = ground (arith, h)
track-append (found_callback ∷ xs) ys true d h = ground (arith, h)
track-append (found_callback ∷ xs) ys false d h = track-append xs ys true d h
track-append (lost_script ∷ xs) ys true d h = track-append xs ys true d h
track-append (lost_script ∷ xs) ys false d h = track-append xs ys false d h
track-append (found_script ∷ xs) ys true d h = track-append xs ys true d h
track-append (found_script ∷ xs) ys false d h = track-append xs ys false d h
track-append (packet p ∷ xs) ys true d h = track-append xs ys true d h
track-append (packet p ∷ xs) ys false d h = track-append xs ys false d h

-- Both callbacks are set, and what they were told is what the thread knows.
pub record Tracked (s : Stream) : Type 0 where
  pub lost_set : s.cfg.internal_lost_callback ≡ true
  pub found_set : s.cfg.internal_found_callback ≡ true
  pub tracked : track false s.acts ≡ some s.was_connected

-- The fields that `Tracked` reads.
pub record Told (s t : Stream) : Type 0 where
  pub cfg : t.cfg ≡ s.cfg
  pub acts : t.acts ≡ s.acts
  pub was_connected : t.was_connected ≡ s.was_connected

Told-Tracked : (s t : Stream) → Told s t → Tracked s → Tracked t
Told-Tracked s t e k = record {
  lost_set = ap (λ x. x.internal_lost_callback) e.cfg ∙ k.lost_set;
  found_set = ap (λ x. x.internal_found_callback) e.cfg ∙ k.found_set;
  tracked = ap (track false) e.acts ∙ k.tracked ∙ ap some (sym e.was_connected);
}

told_lost :
    (b c : Bool) → b ≡ true → track true (when b lost_callback ++ when c lost_script) ≡ some false
told_lost true true h = refl
told_lost true false h = refl
told_lost false c h = ground (arith, h)

told_found :
    (b c : Bool) → b ≡ true → track false (when b found_callback ++ when c found_script) ≡ some true
told_found true true h = refl
told_found true false h = refl
told_found false c h = ground (arith, h)

notify_lost-Tracked : (s : Stream) → Tracked s → Tracked (notify_lost s)
unfolding notify_lost
notify_lost-Tracked s k = elim (Bool-cases s.was_connected) [
  | inl h ↦ simp h (record {
    lost_set = k.lost_set;
    found_set = k.found_set;
    tracked =
        track-append s.acts _ false true (k.tracked ∙ ap some h)
        ∙ told_lost s.cfg.internal_lost_callback _ k.lost_set;
  })
  | inr h ↦ simp h k
]

notify_found-Tracked : (s : Stream) → Tracked s → Tracked (notify_found s)
unfolding notify_found
notify_found-Tracked s k = elim (Bool-cases s.was_connected) [
  | inl h ↦ simp h k
  | inr h ↦ simp h (record {
    lost_set = k.lost_set;
    found_set = k.found_set;
    tracked =
        track-append s.acts _ false false (k.tracked ∙ ap some h)
        ∙ told_found s.cfg.internal_found_callback _ k.found_set;
  })
]

close_input-Told : (s : Stream) → Told s (close_input s)
unfolding close_input
close_input-Told s = record {
  cfg = ground arith;
  acts = ground arith;
  was_connected = ground arith;
}

pub open_input-Told : (r : InputReply) (s : Stream) → Told s (open_input r s).0
unfolding open_input
open_input-Told r s = record {
  cfg = ground arith;
  acts = ground arith;
  was_connected = ground arith;
}

not_opened-Tracked : (s : Stream) → Tracked s → Tracked (not_opened s).0
unfolding not_opened
not_opened-Tracked s k =
    let t = record (close_input s) { alive = false } in
    let told = close_input-Told s in
    let lost = notify_lost-Tracked t (
      Told-Tracked s t
        (record { cfg = told.cfg; acts = told.acts; was_connected = told.was_connected }) k) in
    Told-Tracked (notify_lost t) (not_opened s).0
      (record { cfg = ground arith; acts = ground arith; was_connected = ground arith }) lost

after_reads-Tracked :
    (stop : Bool) (e : Ending) (s : Stream) → Tracked s → Tracked (after_reads stop e s).0
unfolding after_reads
after_reads-Tracked stop e s k =
    let told = close_input-Told (record s { watchdog_enabled = false }) in
    let t = record (close_input (record s { watchdog_enabled = false })) { alive = false } in
    let same =
      Told-Tracked s t
        (record { cfg = told.cfg; acts = told.acts; was_connected = told.was_connected }) k in
    elim (Bool-cases (e.connection_lost && not stop)) [
      | inl h ↦ simp h (notify_lost-Tracked t same)
      | inr h ↦ simp h same
    ]

track-when : (b d : Bool) (p : AvPacket) → track d (when b (packet p)) ≡ some d
track-when true true p = refl
track-when true false p = refl
track-when false d p = refl

read_frame-Tracked :
    (now : ℕ) (p : AvPacket) (b : Bool) (s : Stream) → Tracked s → Tracked (read_frame now p b s)
unfolding read_frame
read_frame-Tracked now p b s k = elim (Bool-cases (eqb_ℤ p.stream_index s.video_stream_idx)) [
  | inl h ↦ simp h (record {
    lost_set = k.lost_set;
    found_set = k.found_set;
    tracked =
        track-append s.acts _ false s.was_connected k.tracked ∙ track-when b s.was_connected p;
  })
  | inr h ↦ simp h (record { lost_set = k.lost_set; found_set = k.found_set; tracked = k.tracked })
]

read_loop-Tracked : (rs : List Read) (s : Stream) → Tracked s → Tracked (read_loop rs s).0
unfolding read_loop
read_loop-Tracked [] s k = k
read_loop-Tracked (interrupted ∷ rs) s k = k
read_loop-Tracked (frame now p b ∷ rs) s k =
    read_loop-Tracked rs (read_frame now p b s) (read_frame-Tracked now p b s k)
read_loop-Tracked (exit ∷ rs) s k = k
read_loop-Tracked (again ∷ rs) s k = read_loop-Tracked rs s k
read_loop-Tracked (failed b ∷ rs) s k = k

opened-Tracked : (r : Round) (s : Stream) → Tracked s → Tracked (opened r s).0
unfolding opened
opened-Tracked r s k =
    let begun = record s {
      reconnect_attempts = 0;
      current_delay = s.cfg.reconnect_delay_ms;
      alive = true;
    } in
    let found =
      notify_found-Tracked begun
        (record { lost_set = k.lost_set; found_set = k.found_set; tracked = k.tracked }) in
    let watched = record (notify_found begun) {
      last_packet_time_ms = r.now;
      watchdog_enabled = true;
    } in
    let e = (read_loop r.reads watched).1 in
    after_reads-Tracked (if e.stopped then true else r.stop_after) e (read_loop r.reads watched).0 (
      read_loop-Tracked r.reads watched (record {
        lost_set = found.lost_set;
        found_set = found.found_set;
        tracked = found.tracked;
      }))

after_open-Tracked : (r : Round) (b : Bool) (s : Stream) → Tracked s → Tracked (after_open r b s).0
unfolding after_open
after_open-Tracked r true s k = opened-Tracked r s k
after_open-Tracked r false s k = not_opened-Tracked s k

round-Tracked : (r : Round) (s : Stream) → Tracked s → Tracked (round r s).0
unfolding round
round-Tracked r s k =
    let t = record s { interrupt_flag = false; watchdog_enabled = false } in
    let told = open_input-Told r.reply t in
    after_open-Tracked r (open_input r.reply t).1 (open_input r.reply t).0 (
      Told-Tracked s (open_input r.reply t).0
        (record { cfg = told.cfg; acts = told.acts; was_connected = told.was_connected }) k)

new_stream-Tracked :
    (c : StreamConfig)
    → c.internal_lost_callback ≡ true
    → c.internal_found_callback ≡ true
    → Tracked (new_stream c)
unfolding new_stream
new_stream-Tracked c h k = record { lost_set = h; found_set = k; tracked = refl }

go_on-Tracked :
    (more : Stream → Stream) (s : Stream) (b : Bool)
    → Tracked s
    → ((t : Stream) → Tracked t → Tracked (more t))
    → Tracked (go_on more (s, b))
unfolding go_on
go_on-Tracked more s true k f = f s k
go_on-Tracked more s false k f = k

run-Tracked : (rs : List Round) (s : Stream) → Tracked s → Tracked (run rs s)
unfolding run
run-Tracked [] s k = k
run-Tracked (r ∷ rs) s k =
    go_on-Tracked (run rs) (round r s).0 (round r s).1 (round-Tracked r s k) (run-Tracked rs)

-- The callbacks for a connection that is found and for one that is lost come in turn, the first of them for
-- one that is found, over every run of the thread and whatever FFmpeg returns, where both callbacks
-- are set; and `was_connected` says which came last.
pub run_alternates :
    (c : StreamConfig) (rs : List Round)
    → c.internal_lost_callback ≡ true
    → c.internal_found_callback ≡ true
    → track false (run rs (new_stream c)).acts ≡ some (run rs (new_stream c)).was_connected
run_alternates c rs h k = (run-Tracked rs (new_stream c) (new_stream-Tracked c h k)).tracked
