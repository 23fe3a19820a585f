-- ===== src/Executor/Stop/Join.antt =====
-- script_executor.hpp: whether the destructor's `join` comes to an end.
use ivckolpak.Prelude.{
  ℕ, suc, ◌+◌, ◌-◌, ◌≤◌, ◌<◌, ◌≡◌, refl, sym, ◌∙◌, ap, Bool, true, false, not, List, [], ◌∷◌, arith,
  ltb, lt→ltb, ◌==◌, ==_iff, if◌then◌else◌, Bool-cases, inl, inr,
}
use mathlib.Core.Path.{subst}
use ivckolpak.Executor.{
  Pc, testing, checking, blocking, blocked, joined, running, Executor, num_workers, lock, awoken,
  submit, notify_one, notify_all, request_stop, work, Op, submit_op, notify_one_op, notify_all_op,
  stop_op, turn_op, step, run,
}
use ivckolpak.Executor.Stop.Left.{left, settled-left, work-other, work-own, work-asleep, work-stop}

-- The turns of worker `j`.
unfoldable pub turns : ℕ → List Op → ℕ
turns j [] = 0
turns j (submit_op cmd ∷ ops) = turns j ops
turns j (notify_one_op k ∷ ops) = turns j ops
turns j (notify_all_op ∷ ops) = turns j ops
turns j (stop_op ∷ ops) = turns j ops
turns j (turn_op i ∷ ops) = if i == j then suc (turns j ops) else turns j ops

-- No notification is among the steps.
unfoldable pub is_quiet : List Op → Bool
is_quiet [] = true
is_quiet (submit_op cmd ∷ ops) = is_quiet ops
is_quiet (notify_one_op k ∷ ops) = false
is_quiet (notify_all_op ∷ ops) = false
is_quiet (stop_op ∷ ops) = is_quiet ops
is_quiet (turn_op i ∷ ops) = is_quiet ops

step-stop : (op : Op) (x : Executor) → x.stop ≡ true → (step op x).stop ≡ true
unfolding step submit lock notify_one notify_all request_stop
step-stop (submit_op cmd) x s = s
step-stop (notify_one_op k) x s = s
step-stop notify_all_op x s = s
step-stop stop_op x s = refl
step-stop (turn_op i) x s = elim (Bool-cases (ltb i num_workers)) [
  | inl h ↦ simp h (work-stop i (x.workers i) x ∙ s)
  | inr h ↦ simp h s
]

awoken-left : (p : Pc) → left p ≤ 3 → left (awoken p) ≡ left p
awoken-left p h = ground arith

notify_one-left :
    (k j : ℕ) (x : Executor)
    → k ≡ j
    → left (x.workers j) ≤ 3
    → left ((notify_one k x).workers j) ≡ left (x.workers j)
unfolding notify_one
notify_one-left k j x e a = elim (Bool-cases (k == j)) [
  | inl h ↦ simp h (ap (λ i. left (awoken (x.workers i))) e ∙ awoken-left (x.workers j) a)
  | inr h ↦ simp h refl
]

turn-left :
    (i j : ℕ) (x : Executor)
    → i ≡ j
    → j < num_workers
    → x.stop ≡ true
    → left (x.workers j) ≤ 3
    → left ((step (turn_op i) x).workers j) ≤ left (x.workers j) - 1
unfolding step
turn-left i j x e l s a =
    subst (λ i. left ((step (turn_op i) x).workers j) ≤ left (x.workers j) - 1) (sym e)
      (simp (lt→ltb j num_workers l) (work-own j (x.workers j) x refl s a))

step-left :
    (j : ℕ) (op : Op) (x : Executor)
    → j < num_workers
    → x.stop ≡ true
    → left (x.workers j) ≤ 3
    → left ((step op x).workers j) ≤ left (x.workers j) - turns j (op ∷ [])
unfolding step submit lock notify_all request_stop turns
step-left j (submit_op cmd) x l s a = omega (arith, settled-left (x.workers j))
step-left j (notify_one_op k) x l s a = elim (Bool-cases (k == j)) [
  | inl h ↦ omega (arith, notify_one-left k j x ((==_iff k j).0 h) a)
  | inr h ↦ unfold notify_one in simp h (omega arith)
]
step-left j notify_all_op x l s a = omega (arith, awoken-left (x.workers j) a)
step-left j stop_op x l s a = omega arith
step-left j (turn_op i) x l s a = elim (Bool-cases (i == j)) [
  | inl h ↦ simp h (turn-left i j x ((==_iff i j).0 h) l s a)
  | inr h ↦ simp h (elim (Bool-cases (ltb i num_workers)) [
    | inl b ↦ simp b (omega (arith, work-other i j (x.workers i) x h))
    | inr b ↦ simp b (omega arith)
  ])
]

turns-cons :
    (j : ℕ) (op : Op) (ops : List Op) → turns j (op ∷ ops) ≡ turns j (op ∷ []) + turns j ops
unfolding turns
turns-cons j (submit_op cmd) ops = omega arith
turns-cons j (notify_one_op k) ops = omega arith
turns-cons j notify_all_op ops = omega arith
turns-cons j stop_op ops = omega arith
turns-cons j (turn_op i) ops = ground arith

run-left :
    (j : ℕ) (ops : List Op) (x : Executor)
    → j < num_workers
    → x.stop ≡ true
    → left (x.workers j) ≤ 3
    → left ((run ops x).workers j) ≤ left (x.workers j) - turns j ops
unfolding run
run-left j [] x l s a = unfold turns in omega arith
run-left j (op ∷ ops) x l s a =
    let n = step-left j op x l s a in
    omega (
      arith,
      n,
      turns-cons j op ops,
      run-left j ops (step op x) l (step-stop op x s) (omega (arith, n)),
    )

turn-asleep :
    (i j : ℕ) (x : Executor) → left (x.workers j) ≡ 4 → left ((step (turn_op i) x).workers j) ≡ 4
unfolding step
turn-asleep i j x a = elim (Bool-cases (ltb i num_workers)) [
  | inl b ↦ simp b (elim (Bool-cases (i == j)) [
    | inl h ↦
        let e = (==_iff i j).0 h in
        subst (λ k. left ((work i (x.workers i) x).workers k) ≡ 4) e
          (work-asleep i (x.workers i) x refl (ap (λ k. left (x.workers k)) e ∙ a))
    | inr h ↦ work-other i j (x.workers i) x h ∙ a
  ])
  | inr b ↦ simp b a
]

run-asleep :
    (j : ℕ) (ops : List Op) (x : Executor)
    → is_quiet ops ≡ true
    → left (x.workers j) ≡ 4
    → left ((run ops x).workers j) ≡ 4
unfolding run is_quiet
run-asleep j [] x q a = a
run-asleep j (submit_op cmd ∷ ops) x q a =
    run-asleep j ops (submit cmd x) q (unfold submit lock in (settled-left (x.workers j) ∙ a))
run-asleep j (notify_one_op k ∷ ops) x q a = ground arith
run-asleep j (notify_all_op ∷ ops) x q a = ground arith
run-asleep j (stop_op ∷ ops) x q a = run-asleep j ops (request_stop x) q (unfold request_stop in a)
run-asleep j (turn_op i ∷ ops) x q a = run-asleep j ops (step (turn_op i) x) q (turn-asleep i j x a)

-- What `join` waits for.
abbrev pub is_joined : Pc → Bool
is_joined joined = true
is_joined testing = false
is_joined checking = false
is_joined blocking = false
is_joined blocked = false
is_joined (running cmd) = false

abbrev pub is_blocking : Pc → Bool
is_blocking blocking = true
is_blocking joined = false
is_blocking testing = false
is_blocking checking = false
is_blocking blocked = false
is_blocking (running cmd) = false

is_joined-left : (p : Pc) → left p ≡ 0 → is_joined p ≡ true
is_joined-left p h = ground arith

asleep-left : (p : Pc) → left p ≡ 4 → is_joined p ≡ false
asleep-left p h = ground arith

notified-left : (p : Pc) → is_blocking p ≡ false → left (awoken p) ≤ 3
notified-left p h = ground arith

blocking-left : (p : Pc) → is_blocking p ≡ true → left (awoken p) ≡ 4
blocking-left p h = ground arith

-- The destructor sets the flag and then notifies. Let worker `j` stand in its wait or elsewhere at the
-- notification, and let it have three turns after that, with whatever else happens but a further
-- notification: it has left its loop then if and only if it was not between a test of the wait that
-- failed and the sleep.
pub stop_joins :
    (j : ℕ) (ops : List Op) (x : Executor)
    → j < num_workers
    → is_quiet ops ≡ true
    → 3 ≤ turns j ops
    → is_joined ((run ops (notify_all (request_stop x))).workers j)
      ≡ not (is_blocking (x.workers j))
unfolding notify_all request_stop
stop_joins j ops x l q t = elim (Bool-cases (is_blocking (x.workers j))) [
  | inl h ↦ simp h (
      asleep-left _
        (run-asleep j ops (notify_all (request_stop x)) q (blocking-left (x.workers j) h)))
  | inr h ↦ simp h (
      let n = notified-left (x.workers j) h in
      is_joined-left _ (omega (arith, n, run-left j ops (notify_all (request_stop x)) l refl n)))
]
