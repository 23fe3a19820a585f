-- ===== src/Program/Delivery.antt =====
-- main.cpp: the alarms of one client, from its bytes to the manager.
use ivckolpak.Prelude.{
  ℕ, ◌≡◌, refl, sym, ◌∙◌, ap, true, false, List, [], ◌∷◌, ◌++◌, Option, none, some, if◌then◌else◌,
  All, arith, Bool-cases, inl, inr, append-nil, append_assoc, Option-cases,
}
use mathlib.Core.Path.{subst}
use ivckolpak.Prelude.Bytes.{Bytes}
use ivckolpak.Prelude.Family.{update}
use ivckolpak.Alarm.Decode.{Root}
use ivckolpak.Alarm.Queue.{AlarmQueue, try_pop}
use ivckolpak.Alarm.Queue
use ivckolpak.Alarm.Server.{
  Processed, process_buffer, Recv, received, Served, silent, run_client, then_read, after_read,
  add_served,
}
use ivckolpak.Alarm.Server.Frames.{Frames-total, process_buffer-Frames}
use ivckolpak.Startup.{Started}
use ivckolpak.Program.{
  Program, started, push_all, read_by, Op, client_data, client_gone, alarm_round, monitor_round,
  packet, connection_lost, end_of_main, act, step, run, ◌>>=◌,
}
use ivckolpak.Program.Order.{in_order, Extends, read_by-Extends, decoded_by, act-Extends}
use ivckolpak.Program.Clients.{some_inj, no_result, Keeps, IsInner, act-Keeps}

-- A step of a program with the single client `c`, before the end.
abbrev pub IsOf : ℕ → Op → Type 0
IsOf c (client_data d b) = d ≡ c
IsOf c (client_gone d) = ⊥
IsOf c (alarm_round w) = Unit
IsOf c (monitor_round w) = Unit
IsOf c (packet i lib now r p) = Unit
IsOf c (connection_lost i ok) = Unit
IsOf c (end_of_main oks) = ⊥

-- What the client's reads bring.
abbrev pub reads : List Op → List Recv
reads [] = []
reads (client_data c b ∷ ops) = received b ∷ reads ops
reads (client_gone c ∷ ops) = reads ops
reads (alarm_round w ∷ ops) = reads ops
reads (monitor_round w ∷ ops) = reads ops
reads (packet i lib now r p ∷ ops) = reads ops
reads (connection_lost i ok ∷ ops) = reads ops
reads (end_of_main oks ∷ ops) = reads ops

module _ (json_parse : Bytes → Option Root) where
  crashed-run : (ops : List Op) (s : Program) → s.crashed ≡ true → run json_parse ops s ≡ some s
  unfolding run step
  crashed-run [] s h = refl
  crashed-run (op ∷ ops) s h = simp h (crashed-run ops s h)

  -- A program that listens, where the client's buffer is `b`.
  record IsServing (c : ℕ) (b : Bytes) (s : Program) : Type 0 where
    listening : s.listening ≡ true
    buffer : s.clients c ≡ b
    calm : s.crashed ≡ false

  -- What the client is served from a buffer on, and the events that the program has taken in.
  abbrev Delivers : Bytes → List Recv → Program → Program → Type 0
  Delivers b rs s t =
      (r : Served) × (run_client json_parse rs b ≡ some r) × (in_order t ≡ in_order s ++ r.alarms)

  step-act :
      (op : Op) (s : Program) → s.crashed ≡ false → step json_parse op s ≡ act json_parse op s
  unfolding step
  step-act op s h = ap (λ b. if b then some s else act json_parse op s) h

  step-read :
      (c : ℕ) (b more : Bytes) (p : Processed) (s : Program)
      → IsServing c b s
      → process_buffer json_parse (b ++ more) ≡ some p
      → step json_parse (client_data c more) s ≡ read_by c (some p) s
  unfolding act
  step-read c b more p s v f =
      step-act (client_data c more) s v.calm
      ∙ ap
          (λ l. if l then read_by c (process_buffer json_parse (s.clients c ++ more)) s else some s)
          v.listening
      ∙ ap (λ x. read_by c (process_buffer json_parse (x ++ more)) s) v.buffer
      ∙ ap (λ o. read_by c o s) f

  run-step :
      (op : Op) (ops : List Op) (s t : Program) (o : Option Program)
      → step json_parse op s ≡ o
      → run json_parse (op ∷ ops) s ≡ some t
      → (o >>= run json_parse ops) ≡ some t
  unfolding run
  run-step op ops s t o e h = sym (ap (λ x. x >>= run json_parse ops) e) ∙ h

  abbrev after_one : ℕ → Processed → Program → Program
  after_one c p s = record s {
    clients = update s.clients c p.buffer;
    queue = push_all p.alarms s.queue;
    crashed = p.thrown;
  }

  after_one-IsServing :
      (c : ℕ) (b : Bytes) (p : Processed) (s : Program)
      → IsServing c b s
      → p.thrown ≡ false
      → IsServing c p.buffer (after_one c p s)
  after_one-IsServing c b p s v h = record {
    listening = v.listening;
    buffer = ground arith;
    calm = h;
  }

  -- What a read gives the client, where it ends the thread, and where it does not.
  served_last :
      (b more : Bytes) (rs : List Recv) (p : Processed)
      → process_buffer json_parse (b ++ more) ≡ some p
      → p.thrown ≡ true
      → run_client json_parse (received more ∷ rs) b
        ≡ some (record { alarms = p.alarms; thrown = true })
  unfolding run_client then_read after_read
  served_last b more rs p f h =
      ap (λ o. then_read o (run_client json_parse rs)) f
      ∙ ap (λ x. after_read x p.alarms (run_client json_parse rs p.buffer)) h

  served_more :
      (b more : Bytes) (rs : List Recv) (p : Processed) (r : Served)
      → process_buffer json_parse (b ++ more) ≡ some p
      → p.thrown ≡ false
      → run_client json_parse rs p.buffer ≡ some r
      → run_client json_parse (received more ∷ rs) b
        ≡ some (record r { alarms = p.alarms ++ r.alarms })
  unfolding run_client then_read after_read
  served_more b more rs p r f h g =
      ap (λ o. then_read o (run_client json_parse rs)) f
      ∙ ap (λ x. after_read x p.alarms (run_client json_parse rs p.buffer)) h
      ∙ ap (add_served p.alarms) g

  -- One read.
  read-Delivers :
      (c : ℕ) (b more : Bytes) (rs : List Recv) (ops : List Op) (s t : Program)
      → IsServing c b s
      → ((u : Program) (d : Bytes)
          → IsServing c d u
          → run json_parse ops u ≡ some t
          → Delivers d rs u t)
      → run json_parse (client_data c more ∷ ops) s ≡ some t
      → Delivers b (received more ∷ rs) s t
  unfolding read_by
  read-Delivers c b more rs ops s t v ih e =
      let (p, frames) = Frames-total json_parse (b ++ more) in
      let f = process_buffer-Frames json_parse (b ++ more) p frames in
      let u = after_one c p s in
      let went = run-step (client_data c more) ops s t (some u) (step-read c b more p s v f) e in
      let taken = read_by-Extends c (some p) s in
      elim (Bool-cases p.thrown) [
        | inl h ↦ (
          record { alarms = p.alarms; thrown = true },
          served_last b more rs p f h,
          ap in_order (some_inj (sym went ∙ crashed-run ops u h)) ∙ taken,
        )
        | inr h ↦
            let (r, g, i) = ih u p.buffer (after_one-IsServing c b p s v h) went in
            (
              record r { alarms = p.alarms ++ r.alarms },
              served_more b more rs p r f h g,
              i ∙ ap (λ x. x ++ r.alarms) taken ∙ append_assoc (in_order s) p.alarms r.alarms,
            )
      ]

  inner-decoded : (op : Op) (s : Program) → IsInner op → decoded_by json_parse op s ≡ []
  unfolding decoded_by
  inner-decoded (client_data d b) s h = absurd h
  inner-decoded (client_gone d) s h = absurd h
  inner-decoded (end_of_main oks) s h = absurd h
  inner-decoded (alarm_round w) s h = refl
  inner-decoded (monitor_round w) s h = refl
  inner-decoded (packet i lib now r p) s h = refl
  inner-decoded (connection_lost i ok) s h = refl

  -- One step that leaves the clients alone.
  inner-Delivers :
      (c : ℕ) (b : Bytes) (op : Op) (rs : List Recv) (ops : List Op) (s t : Program)
      → IsInner op
      → IsServing c b s
      → ((u : Program) → IsServing c b u → run json_parse ops u ≡ some t → Delivers b rs u t)
      → run json_parse (op ∷ ops) s ≡ some t
      → Delivers b rs s t
  inner-Delivers c b op rs ops s t h v ih e =
      let went = λ (o : Option Program) (a : act json_parse op s ≡ o).
        run-step op ops s t o (step-act op s v.calm ∙ a) e in
      elim (Option-cases (act json_parse op s)) [
        | inl a ↦ absurd (no_result (went none a))
        | inr (u, a) ↦
            let (l, k, x) = subst (Keeps s) a (act-Keeps json_parse op s h) in
            let same =
              subst (Extends s (decoded_by json_parse op s)) a (act-Extends json_parse op s) in
            let serving : IsServing c b u = record {
              listening = l ∙ v.listening;
              buffer = ap (λ f. f c) k ∙ v.buffer;
              calm = x ∙ v.calm;
            } in
            let (r, g, i) = ih u serving (went (some u) a) in
            (
              r,
              g,
              i
                  ∙ ap (λ y. y ++ r.alarms)
                      (same
                        ∙ ap (λ y. in_order s ++ y) (inner-decoded op s h)
                        ∙ append-nil (in_order s)),
            )
      ]

  run-Delivers :
      (c : ℕ) (b : Bytes) (ops : List Op) (s t : Program)
      → All (IsOf c) ops
      → IsServing c b s
      → run json_parse ops s ≡ some t
      → Delivers b (reads ops) s t
  unfolding run run_client
  run-Delivers c b [] s t o v e =
      (silent, refl, ap in_order (some_inj {x = t} {y = s} (sym e)) ∙ sym (append-nil (in_order s)))
  run-Delivers c b (client_data d more ∷ ops) s t o v e =
      read-Delivers c b more (reads ops) ops s t v (λ u x. run-Delivers c x ops u t o.1)
        (subst (λ y. run json_parse (client_data y more ∷ ops) s ≡ some t) o.0 e)
  run-Delivers c b (client_gone d ∷ ops) s t o v e = absurd (o.0)
  run-Delivers c b (end_of_main oks ∷ ops) s t o v e = absurd (o.0)
  run-Delivers c b (alarm_round w ∷ ops) s t o v e =
      inner-Delivers c b (alarm_round w) (reads ops) ops s t tt v
        (λ u x. run-Delivers c b ops u t o.1 x) e
  run-Delivers c b (monitor_round w ∷ ops) s t o v e =
      inner-Delivers c b (monitor_round w) (reads ops) ops s t tt v
        (λ u x. run-Delivers c b ops u t o.1 x) e
  run-Delivers c b (packet i lib now r p ∷ ops) s t o v e =
      inner-Delivers c b (packet i lib now r p) (reads ops) ops s t tt v
        (λ u x. run-Delivers c b ops u t o.1 x) e
  run-Delivers c b (connection_lost i ok ∷ ops) s t o v e =
      inner-Delivers c b (connection_lost i ok) (reads ops) ops s t tt v
        (λ u x. run-Delivers c b ops u t o.1 x) e

  -- No alarm is lost, doubled or overtaken on its way: in a program that has started with an empty queue and
  -- serves one client, whatever the client's reads and the steps of the other threads between them are, the
  -- events that the manager has taken followed by those in the queue are what `runClient` passes on for
  -- these reads, in its order.
  pub alarms_delivered :
      (c : ℕ) (ops : List Op) (s : Started) (t : Program)
      → All (IsOf c) ops
      → s.queue ≡ Queue.empty
      → run json_parse ops (started s) ≡ some t
      → (r : Served) × (run_client json_parse (reads ops) [] ≡ some r)
        × (t.handled ++ t.queue.queue ≡ r.alarms)
  unfolding started
  alarms_delivered c ops s t o q e =
      let (r, g, i) =
        run-Delivers c [] ops (started s) t o
          (record { listening = refl; buffer = refl; calm = refl }) e in
      (r, g, i ∙ ap (λ x. x.queue ++ r.alarms) q)
