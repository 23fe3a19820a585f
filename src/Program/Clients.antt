-- ===== src/Program/Clients.antt =====
-- main.cpp: the steps of the program that leave its clients alone.
use ivckolpak.Prelude.{
  ℕ, ◌≡◌, refl, Bool, true, false, Option, none, some, if◌then◌else◌, get_elem?,
}
use ivckolpak.Prelude.Bytes.{Bytes}
use ivckolpak.Alarm.Event.{AlarmEvent}
use ivckolpak.Alarm.Decode.{Root}
use ivckolpak.Alarm.Queue.{AlarmQueue, try_pop}
use ivckolpak.Node.{Node, on_packet, on_rtsp_connection_lost}
use ivckolpak.Manager.{Meets, check_timeouts}
use ivckolpak.Program.{
  Program, handle, with_node, at_node, Op, client_data, client_gone, alarm_round, monitor_round,
  packet, connection_lost, end_of_main, act,
}

pub some_inj : {x y : Program} → some x ≡ some y → x ≡ y
some_inj e = cc

pub no_result : {x : Program} → ◌≡◌ {A = Option Program} none (some x) → ⊥
no_result e = cc

-- The program still serves its clients as it did.
abbrev pub Keeps : Program → Option Program → Type 0
Keeps s none = Unit
Keeps s (some t) = (t.listening ≡ s.listening) × (t.clients ≡ s.clients) × (t.crashed ≡ s.crashed)

handle-Keeps :
    (w : Meets) (r : Option AlarmEvent × AlarmQueue) (s : Program) → Keeps s (some (handle w r s))
unfolding handle
handle-Keeps w (none, q) s = (refl, refl, refl)
handle-Keeps w (some e, q) s = (refl, refl, refl)

some_if-Keeps : (b : Bool) (t s : Program) → Keeps s (some t) → Keeps s (some (if b then t else s))
some_if-Keeps true t s k = k
some_if-Keeps false t s k = (refl, refl, refl)

if-Keeps :
    (b : Bool) (s : Program) (o : Option Program) → Keeps s o → Keeps s (if b then o else some s)
if-Keeps true s o k = k
if-Keeps false s o k = (refl, refl, refl)

with_node-Keeps : (i : ℕ) (o : Option Node) (s : Program) → Keeps s (with_node i o s)
unfolding with_node
with_node-Keeps i none s = tt
with_node-Keeps i (some n) s = (refl, refl, refl)

at_node-Keeps :
    (i : ℕ) (call : Node → Option Node) (o : Option Node) (s : Program)
    → Keeps s (at_node i call o s)
unfolding at_node
at_node-Keeps i call none s = (refl, refl, refl)
at_node-Keeps i call (some n) s = with_node-Keeps i (call n) s

-- A client's step, or one that has nothing to do with the clients.
abbrev pub IsInner : Op → Type 0
IsInner (client_data d b) = ⊥
IsInner (client_gone d) = ⊥
IsInner (alarm_round w) = Unit
IsInner (monitor_round w) = Unit
IsInner (packet i lib now r p) = Unit
IsInner (connection_lost i ok) = Unit
IsInner (end_of_main oks) = ⊥

module _ (json_parse : Bytes → Option Root) where
  pub act-Keeps : (op : Op) (s : Program) → IsInner op → Keeps s (act json_parse op s)
  unfolding act
  act-Keeps (client_data d b) s h = absurd h
  act-Keeps (client_gone d) s h = absurd h
  act-Keeps (end_of_main oks) s h = absurd h
  act-Keeps (alarm_round w) s h =
      some_if-Keeps s.running (handle w (try_pop s.queue) s) s (handle-Keeps w (try_pop s.queue) s)
  act-Keeps (monitor_round w) s h =
      some_if-Keeps s.running (record s { manager = check_timeouts w s.manager }) s
        (refl, refl, refl)
  act-Keeps (packet i lib now r p) s h =
      if-Keeps s.running s _
        (at_node-Keeps i (on_packet lib now r p) (get_elem? s.manager.nodes i) s)
  act-Keeps (connection_lost i ok) s h =
      if-Keeps s.running s _
        (at_node-Keeps i (λ n. some (on_rtsp_connection_lost ok n)) (get_elem? s.manager.nodes i) s)
