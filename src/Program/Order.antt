-- ===== src/Program/Order.antt =====
-- main.cpp: the alarms on their way from a client to the manager.
use ivckolpak.Prelude.{
  ℕ, ◌≡◌, refl, sym, ◌∙◌, ap, Bool, true, false, List, [], ◌∷◌, ◌++◌, Option, none, some,
  if◌then◌else◌, arith, Bool-cases, inl, inr, append-nil, append_assoc, get_elem?,
}
use ivckolpak.Prelude.Bytes.{Bytes}
use ivckolpak.Alarm.Event.{AlarmEvent}
use ivckolpak.Alarm.Decode.{Root}
use ivckolpak.Alarm.Queue.{AlarmQueue, push, try_pop, take_front, shutdown, is_ready}
use ivckolpak.Alarm.Server.{Processed, process_buffer}
use ivckolpak.Node.{Node, on_packet, on_rtsp_connection_lost}
use ivckolpak.Manager.{Meets, check_timeouts}
use ivckolpak.Program.{
  Program, push_all, read_by, handle, with_node, at_node, stop_manager, shut_down, Op, client_data,
  client_gone, alarm_round, monitor_round, packet, connection_lost, end_of_main, act,
}

-- What the manager has taken, and what is in the queue.
abbrev pub in_order : Program → List AlarmEvent
in_order s = s.handled ++ s.queue.queue

push_all-queue : (es : List AlarmEvent) (q : AlarmQueue) → (push_all es q).queue ≡ q.queue ++ es
unfolding push_all push
push_all-queue [] q = sym (append-nil q.queue)
push_all-queue (e ∷ es) q = push_all-queue es (push e q) ∙ append_assoc q.queue (e ∷ []) es

abbrev popped : Option AlarmEvent → List AlarmEvent
popped none = []
popped (some e) = e ∷ []

take_front-order :
    (es : List AlarmEvent) (d : Bool) → popped (take_front es d).0 ++ (take_front es d).1.queue ≡ es
unfolding take_front
take_front-order [] d = refl
take_front-order (e ∷ es) d = refl

try_pop-order : (q : AlarmQueue) → popped (try_pop q).0 ++ (try_pop q).1.queue ≡ q.queue
unfolding try_pop
try_pop-order q = elim (Bool-cases (is_ready q)) [
  | inl h ↦ simp h (take_front-order q.queue q.is_shutdown)
  | inr h ↦ simp h refl
]

handle-order :
    (w : Meets) (r : Option AlarmEvent × AlarmQueue) (s : Program)
    → popped r.0 ++ r.1.queue ≡ s.queue.queue
    → in_order (handle w r s) ≡ in_order s
unfolding handle
handle-order w (none, q) s e = ap (λ x. s.handled ++ x) e
handle-order w (some a, q) s e =
    append_assoc s.handled (a ∷ []) q.queue ∙ ap (λ x. s.handled ++ x) e

-- The state has taken in what `more` holds, and nothing else.
abbrev pub Extends : Program → List AlarmEvent → Option Program → Type 0
Extends s more none = Unit
Extends s more (some t) = in_order t ≡ in_order s ++ more

same : (s t : Program) → in_order t ≡ in_order s → Extends s [] (some t)
same s t e = e ∙ sym (append-nil (in_order s))

some_if-Extends :
    (b : Bool) (t s : Program) → in_order t ≡ in_order s → Extends s [] (some (if b then t else s))
some_if-Extends true t s e = same s t e
some_if-Extends false t s e = same s s refl

with_node-Extends : (i : ℕ) (o : Option Node) (s : Program) → Extends s [] (with_node i o s)
unfolding with_node
with_node-Extends i none s = tt
with_node-Extends i (some n) s = sym (append-nil (in_order s))

at_node-Extends :
    (i : ℕ) (call : Node → Option Node) (o : Option Node) (s : Program)
    → Extends s [] (at_node i call o s)
unfolding at_node
at_node-Extends i call none s = same s s refl
at_node-Extends i call (some n) s = with_node-Extends i (call n) s

if-Extends :
    (b : Bool) (s : Program) (o : Option Program)
    → Extends s [] o
    → Extends s [] (if b then o else some s)
if-Extends true s o h = h
if-Extends false s o h = same s s refl

stop_manager-in_order : (oks : ℕ → Bool) (s : Program) → in_order (stop_manager oks s) ≡ in_order s
unfolding stop_manager
stop_manager-in_order oks s = ground arith

shutdown-queue : (q : AlarmQueue) → (shutdown q).queue ≡ q.queue
unfolding shutdown
shutdown-queue q = ground arith

shut_down-in_order : (oks : ℕ → Bool) (s : Program) → in_order (shut_down oks s) ≡ in_order s
unfolding shut_down
shut_down-in_order oks s =
    ap (λ x. (stop_manager oks s).handled ++ x) (shutdown-queue (stop_manager oks s).queue)
    ∙ stop_manager-in_order oks s

abbrev pub alarms_of : Option Processed → List AlarmEvent
alarms_of none = []
alarms_of (some p) = p.alarms

pub read_by-Extends :
    (c : ℕ) (o : Option Processed) (s : Program) → Extends s (alarms_of o) (read_by c o s)
unfolding read_by
read_by-Extends c none s = tt
read_by-Extends c (some p) s =
    ap (λ x. s.handled ++ x) (push_all-queue p.alarms s.queue)
    ∙ sym (append_assoc s.handled s.queue.queue p.alarms)

read_if :
    (l : Bool) (c : ℕ) (o : Option Processed) (s : Program)
    → Extends s (if l then alarms_of o else []) (if l then read_by c o s else some s)
read_if true c o s = read_by-Extends c o s
read_if false c o s = same s s refl

module _ (json_parse : Bytes → Option Root) where
  -- The alarms that a step of a running program decodes.
  unfoldable pub decoded_by : Op → Program → List AlarmEvent
  unfolding process_buffer
  decoded_by (client_data c b) s =
      if s.listening then alarms_of (process_buffer json_parse (s.clients c ++ b)) else []
  decoded_by (client_gone c) s = []
  decoded_by (alarm_round w) s = []
  decoded_by (monitor_round w) s = []
  decoded_by (packet i lib now r p) s = []
  decoded_by (connection_lost i ok) s = []
  decoded_by (end_of_main oks) s = []

  pub act-Extends : (op : Op) (s : Program) → Extends s (decoded_by op s) (act json_parse op s)
  unfolding act decoded_by
  act-Extends (client_data c b) s =
      read_if s.listening c (process_buffer json_parse (s.clients c ++ b)) s
  act-Extends (client_gone c) s = sym (append-nil (in_order s))
  act-Extends (alarm_round w) s =
      some_if-Extends s.running (handle w (try_pop s.queue) s) s
        (handle-order w (try_pop s.queue) s (try_pop-order s.queue))
  act-Extends (monitor_round w) s =
      some_if-Extends s.running (record s { manager = check_timeouts w s.manager }) s refl
  act-Extends (packet i lib now r p) s =
      if-Extends s.running s _
        (at_node-Extends i (on_packet lib now r p) (get_elem? s.manager.nodes i) s)
  act-Extends (connection_lost i ok) s =
      if-Extends s.running s _ (
        at_node-Extends i (λ n. some (on_rtsp_connection_lost ok n)) (get_elem? s.manager.nodes i)
          s)
  act-Extends (end_of_main oks) s = same s (shut_down oks s) (shut_down-in_order oks s)
