-- ===== src/Program.antt =====
-- main.cpp: the parts of the running program, over any interleaving of what its threads do.
pub mod Nodes
pub mod Valid
pub mod Order
pub mod Clients
pub mod Delivery
pub mod Whole
mod Tests
use ivckolpak.Prelude.{
  ℕ, suc, Bool, true, false, not, List, [], ◌∷◌, ◌++◌, Option, none, some, if◌then◌else◌, get_elem?,
  set,
}
use ivckolpak.Prelude.Bytes.{Bytes}
use ivckolpak.Prelude.Family.{update}
use ivckolpak.Alarm.Event.{AlarmEvent}
use ivckolpak.Alarm.Decode.{Root}
use ivckolpak.Alarm.Queue.{AlarmQueue, push, try_pop, shutdown}
use ivckolpak.Alarm.Server.{Processed, process_buffer}
use ivckolpak.Session.Packet.{AvPacket}
use ivckolpak.Session.State.{Library, RotateReply}
use ivckolpak.Node.{Node, stop, on_rtsp_connection_lost, on_packet}
use ivckolpak.Manager.{Manager, Meets, on_event, check_timeouts}
use ivckolpak.Startup.{Started}

-- The manager, the queue, and the buffer of each client of the server; whether the manager's threads and
-- the server's run, whether an exception has ended the program, and the events that the manager took
-- from the queue, in their order.
pub record Program : Type 0 where
  pub manager : Manager
  pub queue : AlarmQueue
  pub clients : ℕ → Bytes
  pub running : Bool
  pub listening : Bool
  pub crashed : Bool
  pub handled : List AlarmEvent

-- After `mgr.start()` and `server.start()`.
unfoldable pub started : Started → Program
started s = record {
  manager = s.manager;
  queue = s.queue;
  clients = λ c. [];
  running = true;
  listening = true;
  crashed = false;
  handled = [];
}

-- The callback, for each alarm.
unfoldable pub push_all : List AlarmEvent → AlarmQueue → AlarmQueue
unfolding push
push_all [] q = q
push_all (e ∷ es) q = push_all es (push e q)

-- What one read of client `c` gives; an exception in its thread ends the program.
unfoldable pub read_by : ℕ → Option Processed → Program → Option Program
unfolding push_all
read_by c none s = none
read_by c (some p) s = some (record s {
  clients = update s.clients c p.buffer;
  queue = push_all p.alarms s.queue;
  crashed = p.thrown;
})

-- The event that a round of `alarm_loop` took, and the queue without it.
unfoldable pub handle : Meets → Option AlarmEvent × AlarmQueue → Program → Program
unfolding on_event
handle w (none, q) s = record s { queue = q }
handle w (some e, q) s = record s {
  queue = q;
  manager = on_event w e s.manager;
  handled = s.handled ++ e ∷ [];
}

-- A node that has changed; none where its call does not return.
unfoldable pub with_node : ℕ → Option Node → Program → Option Program
with_node i none s = none
with_node i (some n) s =
    some (record s { manager = record s.manager { nodes = set s.manager.nodes i n } })

-- The call of node `i`, where there is one.
unfoldable pub at_node : ℕ → (Node → Option Node) → Option Node → Program → Option Program
unfolding with_node
at_node i call none s = some s
at_node i call (some n) s = with_node i (call n) s

-- The nodes from number `i` on are stopped.
unfoldable pub stop_nodes : (ℕ → Bool) → ℕ → List Node → List Node
unfolding stop
stop_nodes oks i [] = []
stop_nodes oks i (n ∷ ns) = stop (oks i) n ∷ stop_nodes oks (suc i) ns

-- `CameraManager::stop`; the flags say whether a trailer is written.
unfoldable pub stop_manager : (ℕ → Bool) → Program → Program
unfolding stop_nodes
stop_manager oks s =
    if s.running
    then record s {
      running = false;
      manager = record s.manager { nodes = stop_nodes oks 0 s.manager.nodes; active = [] };
    }
    else s

-- The end of `main`: the manager, the server, the queue.
unfoldable pub shut_down : (ℕ → Bool) → Program → Program
unfolding stop_manager shutdown
shut_down oks s =
    let t = stop_manager oks s in record t { listening = false; queue = shutdown t.queue }

-- What some thread does, with what it meets.
pub data Op : Type 0 where
  client_data : ℕ → Bytes → Op
  client_gone : ℕ → Op
  alarm_round monitor_round : Meets → Op
  packet : ℕ → Library → ℕ → RotateReply → AvPacket → Op
  connection_lost : ℕ → Bool → Op
  end_of_main : (ℕ → Bool) → Op

infixl 5 ◌>>=◌
abbrev pub ◌>>=◌ : Option Program → (Program → Option Program) → Option Program
none >>= f = none
some s >>= f = f s

-- `json_parse` and what is read of its result.
module _ (json_parse : Bytes → Option Root) where
  -- One step of a program that has not crashed; none where a call does not return.
  unfoldable pub act : Op → Program → Option Program
  unfolding process_buffer read_by handle try_pop check_timeouts at_node on_packet
      on_rtsp_connection_lost shut_down
  act (client_data c b) s =
      if s.listening then read_by c (process_buffer json_parse (s.clients c ++ b)) s else some s
  act (client_gone c) s = some (record s { clients = update s.clients c [] })
  act (alarm_round w) s = some (if s.running then handle w (try_pop s.queue) s else s)
  act (monitor_round w) s =
      some (if s.running then record s { manager = check_timeouts w s.manager } else s)
  act (packet i lib now r p) s =
      if s.running
      then at_node i (on_packet lib now r p) (get_elem? s.manager.nodes i) s
      else some s
  act (connection_lost i ok) s =
      if s.running
      then at_node i (λ n. some (on_rtsp_connection_lost ok n)) (get_elem? s.manager.nodes i) s
      else some s
  act (end_of_main oks) s = some (shut_down oks s)

  unfoldable pub step : Op → Program → Option Program
  unfolding act
  step op s = if s.crashed then some s else act op s

  unfoldable pub run : List Op → Program → Option Program
  unfolding step
  run [] s = some s
  run (op ∷ ops) s = do t ← step op s; run ops t
