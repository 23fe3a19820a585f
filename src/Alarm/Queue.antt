-- ===== src/Alarm/Queue.antt =====
-- alarm_queue.cpp: the queue between the server and the manager.
pub mod Order
use ivckolpak.Prelude.{
  ℕ, ◌≡◌, refl, sym, ◌∙◌, ap, Bool, true, false, not, ◌||◌, List, [], ◌∷◌, ◌++◌, Option, none, some,
  append-nil, append_assoc, if◌then◌else◌, length,
}
use ivckolpak.Prelude.Bytes.{is_empty}
use ivckolpak.Alarm.Event.{AlarmEvent}

pub record AlarmQueue : Type 0 where
  pub queue : List AlarmEvent
  pub is_shutdown : Bool

abbrev pub empty : AlarmQueue
empty = record { queue = []; is_shutdown = false }

unfoldable pub push : AlarmEvent → AlarmQueue → AlarmQueue
push evt q = record q { queue = q.queue ++ evt ∷ [] }

-- What the consumers wait for.
unfoldable pub is_ready : AlarmQueue → Bool
is_ready q = not (is_empty q.queue) || q.is_shutdown

-- The front of the queue, moved out.
unfoldable pub take_front : List AlarmEvent → Bool → Option AlarmEvent × AlarmQueue
take_front [] down = (none, record { queue = []; is_shutdown = down })
take_front (e ∷ es) down = (some e, record { queue = es; is_shutdown = down })

-- `pop`; none where it waits on.
unfoldable pub pop : AlarmQueue → Option (Option AlarmEvent × AlarmQueue)
unfolding is_ready take_front
pop q = if is_ready q then some (take_front q.queue q.is_shutdown) else none

-- `try_pop` on the queue as it is when the wait ends, be it by the timeout.
unfoldable pub try_pop : AlarmQueue → Option AlarmEvent × AlarmQueue
unfolding is_ready take_front
try_pop q = if is_ready q then take_front q.queue q.is_shutdown else (none, q)

unfoldable pub shutdown : AlarmQueue → AlarmQueue
shutdown q = if q.is_shutdown then q else record q { is_shutdown = true }

-- A call of some thread; a `pop` that waits has no effect yet.
pub data Op : Type 0 where
  push_op : AlarmEvent → Op
  pop_op try_pop_op shutdown_op : Op

abbrev popped_by : Option AlarmEvent → List AlarmEvent
popped_by none = []
popped_by (some e) = e ∷ []

abbrev waiting :
    AlarmQueue → Option (Option AlarmEvent × AlarmQueue) → Option AlarmEvent × AlarmQueue
waiting q none = (none, q)
waiting q (some r) = r

unfoldable pub step : Op → AlarmQueue → Option AlarmEvent × AlarmQueue
unfolding push pop try_pop shutdown
step (push_op e) q = (none, push e q)
step pop_op q = waiting q (pop q)
step try_pop_op q = try_pop q
step shutdown_op q = (none, shutdown q)

-- The events that come out, in their order, and the queue that is left.
unfoldable pub run : List Op → AlarmQueue → List AlarmEvent × AlarmQueue
unfolding step
run [] q = ([], q)
run (op ∷ ops) q =
    let (out, r) = step op q in let (outs, t) = run ops r in (popped_by out ++ outs, t)

abbrev pub pushed_by : Op → List AlarmEvent
pushed_by (push_op e) = e ∷ []
pushed_by pop_op = []
pushed_by try_pop_op = []
pushed_by shutdown_op = []

abbrev pub pushed : List Op → List AlarmEvent
pushed [] = []
pushed (op ∷ ops) = pushed_by op ++ pushed ops
