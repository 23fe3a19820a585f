-- ===== src/Executor.antt =====
-- script_executor.hpp: the workers that run the scripts, in any interleaving of their steps.
pub mod Order
pub mod Stop
mod Tests
use ivckolpak.Prelude.{ℕ, Bool, true, false, not, ◌||◌, List, [], ◌∷◌, ◌++◌, if◌then◌else◌, ltb}
use ivckolpak.Prelude.Bytes.{Bytes, is_empty}
use ivckolpak.Prelude.Family.{update}

-- Where a worker stands: at the test of its loop; before the test of the wait; between a test that failed
-- and the sleep, with the lock; asleep; in `std::system`; past the loop.
pub data Pc : Type 0 where
  testing checking blocking blocked joined : Pc
  running : (cmd : Bytes) → Pc

-- The tasks and the flag, with what was taken off the queue and what has run to its end, each in its
-- order.
pub record Executor : Type 0 where
  pub tasks : List Bytes
  pub stop : Bool
  pub workers : ℕ → Pc
  pub taken : List Bytes
  pub ran : List Bytes

unfoldable pub new_executor : Executor
new_executor = record { tasks = []; stop = false; workers = λ i. testing; taken = []; ran = [] }

-- The number of workers of `instance`.
abbrev pub num_workers : ℕ
num_workers = 4

-- Whoever takes the lock has waited until a worker that holds it sleeps.
abbrev pub settled : Pc → Pc
settled blocking = blocked
settled testing = testing
settled checking = checking
settled blocked = blocked
settled joined = joined
settled (running cmd) = running cmd

unfoldable pub lock : Executor → Executor
lock x = record x { workers = λ i. settled (x.workers i) }

-- `submit` up to its notification.
unfoldable pub submit : Bytes → Executor → Executor
unfolding lock
submit cmd x = record (lock x) { tasks = x.tasks ++ cmd ∷ [] }

-- A notification, or a spurious one, wakes a worker that is asleep.
abbrev pub awoken : Pc → Pc
awoken blocked = checking
awoken testing = testing
awoken checking = checking
awoken blocking = blocking
awoken joined = joined
awoken (running cmd) = running cmd

-- `notify_one`, where worker `k` is the one.
unfoldable pub notify_one : ℕ → Executor → Executor
notify_one k x = record x { workers = update x.workers k (awoken (x.workers k)) }

unfoldable pub notify_all : Executor → Executor
notify_all x = record x { workers = λ i. awoken (x.workers i) }

-- The destructor sets the flag without the lock.
unfoldable pub request_stop : Executor → Executor
request_stop x = record x { stop = true }

abbrev moved : ℕ → Pc → Executor → Executor
moved i p x = record x { workers = update x.workers i p }

-- After the wait, under the lock: without tasks the worker goes on to the test of its loop.
unfoldable pub take_task : ℕ → List Bytes → Executor → Executor
take_task i [] x = moved i testing x
take_task i (cmd ∷ rest) x =
    moved i (running cmd) (record x { tasks = rest; taken = x.taken ++ cmd ∷ [] })

-- What ends the wait.
unfoldable pub is_ready : Executor → Bool
is_ready x = not (is_empty x.tasks) || x.stop

-- With the lock: the test of the wait, and what follows it.
unfoldable pub check : ℕ → Executor → Executor
unfolding is_ready take_task
check i x = if is_ready x then take_task i x.tasks x else moved i blocking x

-- One step of worker `i`, which stands at `p`; a worker that is asleep has none.
unfoldable pub work : ℕ → Pc → Executor → Executor
unfolding lock check
work i testing x = moved i (if x.stop then joined else checking) x
work i checking x = check i (lock x)
work i blocking x = moved i blocked x
work i blocked x = x
work i (running cmd) x = moved i testing (record x { ran = x.ran ++ cmd ∷ [] })
work i joined x = x

-- A call from outside or a part of one, a notification, or the turn of a worker.
pub data Op : Type 0 where
  submit_op : Bytes → Op
  notify_one_op : ℕ → Op
  stop_op notify_all_op : Op
  turn_op : ℕ → Op

unfoldable pub step : Op → Executor → Executor
unfolding submit notify_one notify_all request_stop work
step (submit_op cmd) x = submit cmd x
step (notify_one_op k) x = notify_one k x
step stop_op x = request_stop x
step notify_all_op x = notify_all x
step (turn_op i) x = if ltb i num_workers then work i (x.workers i) x else x

unfoldable pub run : List Op → Executor → Executor
unfolding step
run [] x = x
run (op ∷ ops) x = run ops (step op x)
