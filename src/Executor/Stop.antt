-- ===== src/Executor/Stop.antt =====
-- script_executor.hpp: the executor after its destructor has asked for a stop.
pub mod Left
pub mod Join
use ivckolpak.Prelude.{
  ℕ, suc, ◌+◌, ◌≤◌, ◌<◌, ◌≡◌, refl, ap, true, false, List, [], ◌∷◌, ◌++◌, arith, ltb, ltb→lt,
  if◌then◌else◌, Bool-cases, inl, inr, length, length-append,
}
use ivckolpak.Prelude.Bytes.{Bytes}
use ivckolpak.Prelude.Family.{update, total, total-update, total-same, total-kept}
use ivckolpak.Executor.{
  Pc, testing, checking, blocking, blocked, joined, running, Executor, num_workers, settled, lock,
  awoken, submit, notify_one, notify_all, request_stop, take_task, is_ready, check, work, Op,
  submit_op, notify_one_op, notify_all_op, stop_op, turn_op, step, run,
}

-- A worker that has passed the test of its loop and has not taken a task since.
abbrev pub waits : Pc → ℕ
waits checking = 1
waits blocking = 1
waits blocked = 1
waits testing = 0
waits joined = 0
waits (running cmd) = 0

settled-waits : (p : Pc) → waits (settled p) ≡ waits p
settled-waits p = ground arith

awoken-waits : (p : Pc) → waits (awoken p) ≡ waits p
awoken-waits p = ground arith

-- The commands taken, and those that a worker in the wait may still take.
abbrev reach : Executor → ℕ
reach x = length x.taken + total waits num_workers x.workers

-- A step that takes nothing more than the workers in the wait may, and leaves the flag.
abbrev Within : Executor → Executor → Type 0
Within x y = (reach y ≤ reach x) × (y.stop ≡ x.stop)

take_task-Within :
    (i : ℕ) (ts : List Bytes) (x : Executor)
    → i < num_workers
    → waits (x.workers i) ≡ 1
    → Within x (take_task i ts x)
unfolding take_task
take_task-Within i [] x l w =
    (ground (arith, total-update waits num_workers x.workers i testing l), refl)
take_task-Within i (cmd ∷ rest) x l w = (
  ground (
    arith,
    length-append x.taken (cmd ∷ []),
    total-update waits num_workers x.workers i (running cmd) l,
  ),
  refl,
)

check-Within :
    (i : ℕ) (x : Executor) → i < num_workers → waits (x.workers i) ≡ 1 → Within x (check i x)
unfolding check
check-Within i x l w = elim (Bool-cases (is_ready x)) [
  | inl h ↦ simp h (take_task-Within i x.tasks x l w)
  | inr h ↦ simp h (ground (arith, total-update waits num_workers x.workers i blocking l), refl)
]

lock-Within : (x : Executor) → Within x (lock x)
unfolding lock
lock-Within x = (omega (arith, total-kept waits num_workers x.workers settled settled-waits), refl)

Within-trans : (x y z : Executor) → Within x y → Within y z → Within x z
Within-trans x y z a b = (omega (arith, a.0, b.0), cc)

work-Within :
    (i : ℕ) (p : Pc) (x : Executor)
    → i < num_workers
    → x.workers i ≡ p
    → x.stop ≡ true
    → Within x (work i p x)
unfolding work
work-Within i testing x l w s =
    (simp s (ground (arith, total-update waits num_workers x.workers i joined l)), refl)
work-Within i checking x l w s =
    Within-trans x (lock x) (check i (lock x)) (lock-Within x)
      (check-Within i (lock x) l (unfold lock in ground arith))
work-Within i blocking x l w s =
    (ground (arith, total-update waits num_workers x.workers i blocked l), refl)
work-Within i blocked x l w s = (omega arith, refl)
work-Within i (running cmd) x l w s =
    (ground (arith, total-update waits num_workers x.workers i testing l), refl)
work-Within i joined x l w s = (omega arith, refl)

step-stopped :
    (op : Op) (x : Executor)
    → x.stop ≡ true
    → (reach (step op x) ≤ reach x) × ((step op x).stop ≡ true)
unfolding step submit notify_one notify_all request_stop
step-stopped (submit_op cmd) x s = (unfold lock in (lock-Within x).0, s)
step-stopped (notify_one_op k) x s = (
  omega (
    arith,
    total-same waits num_workers x.workers k (awoken (x.workers k)) (awoken-waits (x.workers k)),
  ),
  s,
)
step-stopped notify_all_op x s =
    (omega (arith, total-kept waits num_workers x.workers awoken awoken-waits), s)
step-stopped stop_op x s = (omega arith, refl)
step-stopped (turn_op i) x s = elim (Bool-cases (ltb i num_workers)) [
  | inl h ↦
      let (a, b) = work-Within i (x.workers i) x (ltb→lt i num_workers h) refl s in simp h (a, cc)
  | inr h ↦ simp h (omega arith, s)
]

run-stopped : (ops : List Op) (x : Executor) → x.stop ≡ true → reach (run ops x) ≤ reach x
unfolding run
run-stopped [] x s = omega arith
run-stopped (op ∷ ops) x s =
    let (a, b) = step-stopped op x s in omega (arith, a, run-stopped ops (step op x) b)

-- Once the stop is requested, at most as many more commands are taken as there are workers in the wait,
-- whatever is submitted and however the turns and notifications go on.
pub stop_bounds :
    (ops : List Op) (x : Executor)
    → length (run ops (request_stop x)).taken ≤ length x.taken + total waits num_workers x.workers
unfolding request_stop
stop_bounds ops x = omega (arith, run-stopped ops (request_stop x) refl)
