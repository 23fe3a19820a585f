-- ===== src/Executor/Order.antt =====
-- script_executor.hpp: which tasks are taken, in which order, and what becomes of them.
use ivckolpak.Prelude.{
  ℕ, suc, ◌+◌, ◌<◌, ◌≡◌, refl, sym, ◌∙◌, ap, List, [], ◌∷◌, ◌++◌, append-nil, append_assoc, arith,
  ltb, ltb→lt, if◌then◌else◌, Bool-cases, inl, inr,
}
use ivckolpak.Prelude.Bytes.{Bytes, bytes_eq}
use ivckolpak.Prelude.Family.{total, total-update, total-same, total-kept}
use ivckolpak.Executor.{
  Pc, testing, checking, blocking, blocked, joined, running, Executor, new_executor, num_workers,
  settled, lock, awoken, submit, notify_one, notify_all, request_stop, take_task, is_ready, check,
  work, Op, submit_op, notify_one_op, notify_all_op, stop_op, turn_op, step, run,
}

-- The commands that a call adds.
abbrev pub submitted_by : Op → List Bytes
submitted_by (submit_op cmd) = cmd ∷ []
submitted_by (notify_one_op k) = []
submitted_by notify_all_op = []
submitted_by stop_op = []
submitted_by (turn_op i) = []

abbrev pub submitted : List Op → List Bytes
submitted [] = []
submitted (op ∷ ops) = submitted_by op ++ submitted ops

abbrev in_order : Executor → List Bytes
in_order x = x.taken ++ x.tasks

take_task-in_order :
    (i : ℕ) (ts : List Bytes) (x : Executor)
    → x.tasks ≡ ts
    → in_order (take_task i ts x) ≡ in_order x
unfolding take_task
take_task-in_order i [] x e = refl
take_task-in_order i (cmd ∷ rest) x e =
    append_assoc x.taken (cmd ∷ []) rest ∙ ap (λ t. x.taken ++ t) (sym e)

check-in_order : (i : ℕ) (x : Executor) → in_order (check i x) ≡ in_order x
unfolding check
check-in_order i x = elim (Bool-cases (is_ready x)) [
  | inl h ↦ simp h (take_task-in_order i x.tasks x refl)
  | inr h ↦ simp h refl
]

work-in_order : (i : ℕ) (p : Pc) (x : Executor) → in_order (work i p x) ≡ in_order x
unfolding work lock
work-in_order i testing x = refl
work-in_order i checking x = check-in_order i (lock x)
work-in_order i blocking x = refl
work-in_order i blocked x = refl
work-in_order i (running cmd) x = refl
work-in_order i joined x = refl

step-in_order : (op : Op) (x : Executor) → in_order (step op x) ≡ in_order x ++ submitted_by op
unfolding step submit lock notify_one notify_all request_stop
step-in_order (submit_op cmd) x = sym (append_assoc x.taken x.tasks (cmd ∷ []))
step-in_order (notify_one_op k) x = sym (append-nil (in_order x))
step-in_order notify_all_op x = sym (append-nil (in_order x))
step-in_order stop_op x = sym (append-nil (in_order x))
step-in_order (turn_op i) x = elim (Bool-cases (ltb i num_workers)) [
  | inl h ↦ simp h (work-in_order i (x.workers i) x ∙ sym (append-nil (in_order x)))
  | inr h ↦ simp h (sym (append-nil (in_order x)))
]

run-in_order : (ops : List Op) (x : Executor) → in_order (run ops x) ≡ in_order x ++ submitted ops
unfolding run
run-in_order [] x = sym (append-nil (in_order x))
run-in_order (op ∷ ops) x =
    run-in_order ops (step op x)
    ∙ ap (λ t. t ++ submitted ops) (step-in_order op x)
    ∙ append_assoc (in_order x) (submitted_by op) (submitted ops)

-- How often a command stands in a list.
unfoldable pub count : Bytes → List Bytes → ℕ
count c [] = 0
count c (d ∷ ds) = if bytes_eq c d then suc (count c ds) else count c ds

count-append : (c : Bytes) (xs ys : List Bytes) → count c (xs ++ ys) ≡ count c xs + count c ys
unfolding count
count-append c [] ys = omega arith
count-append c (x ∷ xs) ys = ground (arith, count-append c xs ys)

-- Whether a worker runs the command.
abbrev pub runs : Bytes → Pc → ℕ
runs c testing = 0
runs c checking = 0
runs c blocking = 0
runs c blocked = 0
runs c joined = 0
runs c (running d) = if bytes_eq c d then 1 else 0

-- Each taken command has run, or is run by a worker.
abbrev Accounted : Bytes → Executor → Type 0
Accounted c x = count c x.taken ≡ count c x.ran + total (runs c) num_workers x.workers

take_task-Accounted :
    (c : Bytes) (i : ℕ) (ts : List Bytes) (x : Executor)
    → i < num_workers
    → runs c (x.workers i) ≡ 0
    → Accounted c x
    → Accounted c (take_task i ts x)
unfolding take_task count
take_task-Accounted c i [] x l w a =
    ground (arith, total-update (runs c) num_workers x.workers i testing l)
take_task-Accounted c i (cmd ∷ rest) x l w a = ground (
  arith,
  count-append c x.taken (cmd ∷ []),
  total-update (runs c) num_workers x.workers i (running cmd) l,
)

settled-runs : (c : Bytes) (p : Pc) → runs c (settled p) ≡ runs c p
settled-runs c p = ground arith

awoken-runs : (c : Bytes) (p : Pc) → runs c (awoken p) ≡ runs c p
awoken-runs c p = ground arith

lock-Accounted : (c : Bytes) (x : Executor) → Accounted c x → Accounted c (lock x)
unfolding lock
lock-Accounted c x a =
    omega (arith, a, total-kept (runs c) num_workers x.workers settled (settled-runs c))

check-Accounted :
    (c : Bytes) (i : ℕ) (x : Executor)
    → i < num_workers
    → runs c (x.workers i) ≡ 0
    → Accounted c x
    → Accounted c (check i x)
unfolding check
check-Accounted c i x l w a = elim (Bool-cases (is_ready x)) [
  | inl h ↦ simp h (take_task-Accounted c i x.tasks x l w a)
  | inr h ↦ simp h (ground (arith, total-update (runs c) num_workers x.workers i blocking l))
]

work-Accounted :
    (c : Bytes) (i : ℕ) (p : Pc) (x : Executor)
    → i < num_workers
    → x.workers i ≡ p
    → Accounted c x
    → Accounted c (work i p x)
unfolding work count
work-Accounted c i testing x l w a =
    ground
      (arith, total-update (runs c) num_workers x.workers i (if x.stop then joined else checking) l)
work-Accounted c i checking x l w a =
    check-Accounted c i (lock x) l (unfold lock in ground arith) (lock-Accounted c x a)
work-Accounted c i blocking x l w a =
    ground (arith, total-update (runs c) num_workers x.workers i blocked l)
work-Accounted c i blocked x l w a = a
work-Accounted c i (running cmd) x l w a = ground (
  arith,
  count-append c x.ran (cmd ∷ []),
  total-update (runs c) num_workers x.workers i testing l,
)
work-Accounted c i joined x l w a = a

step-Accounted : (c : Bytes) (op : Op) (x : Executor) → Accounted c x → Accounted c (step op x)
unfolding step submit notify_one notify_all request_stop
step-Accounted c (submit_op cmd) x a = unfold lock in lock-Accounted c x a
step-Accounted c (notify_one_op k) x a = omega (
  arith,
  a,
  total-same (runs c) num_workers x.workers k (awoken (x.workers k)) (awoken-runs c (x.workers k)),
)
step-Accounted c notify_all_op x a =
    omega (arith, a, total-kept (runs c) num_workers x.workers awoken (awoken-runs c))
step-Accounted c stop_op x a = a
step-Accounted c (turn_op i) x a = elim (Bool-cases (ltb i num_workers)) [
  | inl h ↦ simp h (work-Accounted c i (x.workers i) x (ltb→lt i num_workers h) refl a)
  | inr h ↦ simp h a
]

run-Accounted : (c : Bytes) (ops : List Op) (x : Executor) → Accounted c x → Accounted c (run ops x)
unfolding run
run-Accounted c [] x a = a
run-Accounted c (op ∷ ops) x a = run-Accounted c ops (step op x) (step-Accounted c op x a)

-- Whatever calls are made and however the workers' turns are interleaved, from the start: the commands
-- taken off the queue followed by those that are still in it are the submitted ones, in their order; and
-- each command is run just as often as it is taken: the times it was taken are the times it has run to its
-- end and the workers that are running it.
pub tasks_once_in_order :
    (ops : List Op)
    → ((run ops new_executor).taken ++ (run ops new_executor).tasks ≡ submitted ops)
      × ((c : Bytes)
          → count c (run ops new_executor).taken
            ≡ count c (run ops new_executor).ran
              + total (runs c) num_workers (run ops new_executor).workers)
unfolding new_executor count total
tasks_once_in_order ops =
    (run-in_order ops new_executor, λ c. run-Accounted c ops new_executor refl)
