-- ===== src/Alarm/Queue/Order.antt =====
-- alarm_queue.cpp: the order of the events in the queue, and the queue after a shutdown.
use ivckolpak.Prelude.{
  ◌≡◌, refl, sym, ◌∙◌, ap, Bool, true, false, List, [], ◌∷◌, ◌++◌, Option, none, some, append-nil,
  append_assoc, length, suc, zero, ℕ, map,
}
use ivckolpak.Alarm.Event.{AlarmEvent}
use ivckolpak.Alarm.Queue.{
  AlarmQueue, push, pop, try_pop, shutdown, take_front, Op, push_op, pop_op, try_pop_op,
  shutdown_op, step, run, pushed, pushed_by, popped_by,
}

abbrev queue_of : List AlarmEvent → Bool → AlarmQueue
queue_of es d = record { queue = es; is_shutdown = d }

step-order_at :
    (op : Op) (es : List AlarmEvent) (d : Bool)
    → popped_by (step op (queue_of es d)).0 ++ (step op (queue_of es d)).1.queue
      ≡ es ++ pushed_by op
unfolding step push pop try_pop take_front shutdown
step-order_at (push_op e) es d = refl
step-order_at pop_op [] true = refl
step-order_at pop_op [] false = refl
step-order_at pop_op (e ∷ es) d = ap (λ x. e ∷ x) (sym (append-nil es))
step-order_at try_pop_op [] true = refl
step-order_at try_pop_op [] false = refl
step-order_at try_pop_op (e ∷ es) d = ap (λ x. e ∷ x) (sym (append-nil es))
step-order_at shutdown_op es true = sym (append-nil es)
step-order_at shutdown_op es false = sym (append-nil es)

-- What a call takes out and what it leaves are what was there and what it put in.
step-order :
    (op : Op) (q : AlarmQueue)
    → popped_by (step op q).0 ++ (step op q).1.queue ≡ q.queue ++ pushed_by op
step-order op q = step-order_at op q.queue q.is_shutdown

-- The queue is first in, first out, and loses and doubles nothing: whatever calls are made, in whatever
-- order, the events that came out followed by those that are still inside are those that were inside
-- before followed by those that were pushed, in their order.
pub run_fifo :
    (ops : List Op) (q : AlarmQueue) → (run ops q).0 ++ (run ops q).1.queue ≡ q.queue ++ pushed ops
unfolding run
run_fifo [] q = sym (append-nil q.queue)
run_fifo (op ∷ ops) q =
    let r = (step op q).1 in
    append_assoc (popped_by (step op q).0) (run ops r).0 (run ops r).1.queue
    ∙ ap (λ x. popped_by (step op q).0 ++ x) (run_fifo ops r)
    ∙ sym (append_assoc (popped_by (step op q).0) r.queue (pushed ops))
    ∙ ap (λ x. x ++ pushed ops) (step-order op q)
    ∙ append_assoc q.queue (pushed_by op) (pushed ops)

abbrev cons_to :
    Option AlarmEvent → Option (List (Option AlarmEvent)) → Option (List (Option AlarmEvent))
cons_to out none = none
cons_to out (some outs) = some (out ∷ outs)

-- What `n` calls of `pop` return; none where one of them waits for ever.
unfoldable pub pops : ℕ → AlarmQueue → Option (List (Option AlarmEvent))
unfolding pop
pops zero q = some []
pops (suc n) q = elim (pop q) [ none ↦ none | some (out, r) ↦ cons_to out (pops n r) ]

pops-down :
    (es : List AlarmEvent)
    → pops (suc (length es)) (queue_of es true) ≡ some (map some es ++ none ∷ [])
unfolding pops take_front
pops-down [] = refl
pops-down (e ∷ es) = ap (cons_to (some e)) (pops-down es)

shutdown-queue_of : (es : List AlarmEvent) (d : Bool) → shutdown (queue_of es d) ≡ queue_of es true
unfolding shutdown
shutdown-queue_of es true = refl
shutdown-queue_of es false = refl

-- After a shutdown no `pop` waits: the events that are still inside come out in their order, and the call
-- after the last of them returns nothing.
pub shutdown_drains :
    (q : AlarmQueue)
    → pops (suc (length q.queue)) (shutdown q) ≡ some (map some q.queue ++ none ∷ [])
shutdown_drains q =
    ap (pops (suc (length q.queue))) (shutdown-queue_of q.queue q.is_shutdown) ∙ pops-down q.queue
