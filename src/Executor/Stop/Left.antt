-- ===== src/Executor/Stop/Left.antt =====
-- script_executor.hpp: how far a worker is from the end of its loop, and what one step changes of that.
use ivckolpak.Prelude.{
  ℕ, ◌-◌, ◌≤◌, ◌≡◌, refl, ◌∙◌, true, false, List, [], ◌∷◌, arith, ◌==◌, Bool-cases, inl, inr,
}
use ivckolpak.Prelude.Bytes.{Bytes}
use ivckolpak.Executor.{
  Pc, testing, checking, blocking, blocked, joined, running, Executor, settled, lock, take_task,
  is_ready, check, work,
}

-- The turns that a worker needs to leave its loop after a stop; four for one that is, or goes, asleep.
abbrev pub left : Pc → ℕ
left checking = 3
left (running cmd) = 2
left testing = 1
left joined = 0
left blocking = 4
left blocked = 4

pub settled-left : (p : Pc) → left (settled p) ≡ left p
settled-left p = ground arith

take_task-other :
    (i j : ℕ) (ts : List Bytes) (x : Executor)
    → (i == j) ≡ false
    → left ((take_task i ts x).workers j) ≡ left (x.workers j)
unfolding take_task
take_task-other i j [] x d = simp d refl
take_task-other i j (cmd ∷ rest) x d = simp d refl

check-other :
    (i j : ℕ) (x : Executor) → (i == j) ≡ false → left ((check i x).workers j) ≡ left (x.workers j)
unfolding check
check-other i j x d = elim (Bool-cases (is_ready x)) [
  | inl h ↦ simp h (take_task-other i j x.tasks x d)
  | inr h ↦ simp (h, d) refl
]

-- The turn of another worker leaves `j` as near to the end of its loop as it was.
pub work-other :
    (i j : ℕ) (p : Pc) (x : Executor)
    → (i == j) ≡ false
    → left ((work i p x).workers j) ≡ left (x.workers j)
unfolding work
work-other i j testing x d = simp d refl
work-other i j checking x d = check-other i j (lock x) d ∙ unfold lock in settled-left (x.workers j)
work-other i j blocking x d = simp d refl
work-other i j blocked x d = refl
work-other i j (running cmd) x d = simp d refl
work-other i j joined x d = refl

take_task-own : (i : ℕ) (ts : List Bytes) (x : Executor) → left ((take_task i ts x).workers i) ≤ 2
unfolding take_task
take_task-own i [] x = ground arith
take_task-own i (cmd ∷ rest) x = ground arith

is_ready-stop : (x : Executor) → x.stop ≡ true → is_ready x ≡ true
unfolding is_ready
is_ready-stop x s = ground arith

check-own : (i : ℕ) (x : Executor) → x.stop ≡ true → left ((check i x).workers i) ≤ 2
unfolding check
check-own i x s = simp (is_ready-stop x s) (take_task-own i x.tasks x)

-- A turn of an awake worker takes it nearer to the end of its loop.
pub work-own :
    (i : ℕ) (p : Pc) (x : Executor)
    → x.workers i ≡ p
    → x.stop ≡ true
    → left p ≤ 3
    → left ((work i p x).workers i) ≤ left p - 1
unfolding work
work-own i testing x e s h = ground arith
work-own i checking x e s h = check-own i (lock x) (unfold lock in s)
work-own i blocking x e s h = ground arith
work-own i blocked x e s h = ground arith
work-own i (running cmd) x e s h = ground arith
work-own i joined x e s h = ground (arith, e)

pub work-asleep :
    (i : ℕ) (p : Pc) (x : Executor)
    → x.workers i ≡ p
    → left p ≡ 4
    → left ((work i p x).workers i) ≡ 4
unfolding work
work-asleep i testing x e h = ground arith
work-asleep i checking x e h = ground arith
work-asleep i blocking x e h = ground arith
work-asleep i blocked x e h = ground (arith, e)
work-asleep i (running cmd) x e h = ground arith
work-asleep i joined x e h = ground arith

take_task-stop : (i : ℕ) (ts : List Bytes) (x : Executor) → (take_task i ts x).stop ≡ x.stop
unfolding take_task
take_task-stop i [] x = refl
take_task-stop i (cmd ∷ rest) x = refl

check-stop : (i : ℕ) (x : Executor) → (check i x).stop ≡ x.stop
unfolding check
check-stop i x = elim (Bool-cases (is_ready x)) [
  | inl h ↦ simp h (take_task-stop i x.tasks x)
  | inr h ↦ simp h refl
]

pub work-stop : (i : ℕ) (p : Pc) (x : Executor) → (work i p x).stop ≡ x.stop
unfolding work
work-stop i testing x = refl
work-stop i checking x = check-stop i (lock x) ∙ unfold lock in refl
work-stop i blocking x = refl
work-stop i blocked x = refl
work-stop i (running cmd) x = refl
work-stop i joined x = refl
