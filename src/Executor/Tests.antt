-- ===== src/Executor/Tests.antt =====
-- Runs of the executor, and the properties at concrete interleavings.
use ivckolpak.Prelude.{◌+◌, ◌≤◌, ◌≡◌, refl, List, [], ◌∷◌, ◌++◌, arith, length, true}
use ivckolpak.Prelude.Bytes.{Bytes, codes}
use ivckolpak.Prelude.Family.{total}
use ivckolpak.Executor.{
  running, blocked, new_executor, num_workers, notify_all, request_stop, submit_op, turn_op,
  notify_one_op, Op, run,
}
use ivckolpak.Executor.Order.{count, runs, tasks_once_in_order}
use ivckolpak.Executor.Stop.{stop_bounds}
use ivckolpak.Executor.Stop.Join.{turns, is_quiet, is_joined, stop_joins}

-- Two commands, and two workers that each take one; the first, which slept, has ended its own.
abbrev two_scripts : List Op
two_scripts =
    turn_op 0
    ∷ turn_op 0
    ∷ turn_op 0
    ∷ submit_op (codes "a")
    ∷ notify_one_op 0
    ∷ submit_op (codes "b")
    ∷ turn_op 1
    ∷ turn_op 0
    ∷ turn_op 1
    ∷ turn_op 0
    ∷ []

two_scripts-run :
    ((run two_scripts new_executor).ran ≡ codes "a" ∷ [])
    × ((run two_scripts new_executor).workers 1 ≡ running (codes "b"))
unfolding run new_executor
two_scripts-run = (refl, refl)

tasks_once_in_order_example :
    ((run two_scripts new_executor).taken ++ (run two_scripts new_executor).tasks
      ≡ codes "a" ∷ codes "b" ∷ [])
    × ((c : Bytes)
        → count c (run two_scripts new_executor).taken
          ≡ count c (run two_scripts new_executor).ran
            + total (runs c) num_workers (run two_scripts new_executor).workers)
tasks_once_in_order_example = tasks_once_in_order two_scripts

-- Worker 0 waits, the others are at the test of their loop; three commands are submitted.
abbrev one_waits : List Op
one_waits = turn_op 0 ∷ submit_op (codes "a") ∷ submit_op (codes "b") ∷ submit_op (codes "c") ∷ []

-- Three turns of each worker.
abbrev three_rounds : List Op
three_rounds =
    turn_op 0
    ∷ turn_op 1
    ∷ turn_op 2
    ∷ turn_op 3
    ∷ turn_op 0
    ∷ turn_op 1
    ∷ turn_op 2
    ∷ turn_op 3
    ∷ turn_op 0
    ∷ turn_op 1
    ∷ turn_op 2
    ∷ turn_op 3
    ∷ []

-- Two submitted commands are never run.
two_dropped :
    (run three_rounds (request_stop (run one_waits new_executor))).tasks
    ≡ codes "b" ∷ codes "c" ∷ []
unfolding run new_executor request_stop
two_dropped = refl

-- Worker 0 has seen no task and is not asleep yet when the stop is notified, and sleeps from then on.
never_woken :
    (run three_rounds
        (notify_all (request_stop (run (turn_op 0 ∷ turn_op 0 ∷ []) new_executor)))).workers
      0
    ≡ blocked
unfolding run new_executor notify_all request_stop
never_woken = refl

stop_bounds_example :
    length (run three_rounds (request_stop (run one_waits new_executor))).taken ≤ 1
unfolding run new_executor total
stop_bounds_example = stop_bounds three_rounds (run one_waits new_executor)

stop_joins_example :
    is_joined
      ((run three_rounds (notify_all (request_stop (run one_waits new_executor)))).workers 0)
    ≡ true
unfolding run new_executor turns is_quiet
stop_joins_example =
    stop_joins 0 three_rounds (run one_waits new_executor) (omega arith) refl (omega arith)
