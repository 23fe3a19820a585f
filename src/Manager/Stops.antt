-- ===== src/Manager/Stops.antt =====
-- camera_manager.cpp `check_timeouts`: what the stops of the events that are over do to the nodes.
use ivckolpak.Prelude.{
  ℕ, arith, set, ◌≡◌, refl, sym, ◌∙◌, ◌&&◌, ◌==◌, zero, suc, Option, none, ap, Bool, false, List,
  [], ◌∷◌, some, if◌then◌else◌, Bool-cases, inl, inr, get_elem?,
}
use mathlib.Core.Option.{map}
use ivckolpak.Prelude.Bytes.{Bytes, bytes_eq, to_lower}
use ivckolpak.Prelude.Assoc.{Assoc}
use ivckolpak.Prelude.Double.{leb_double}
use ivckolpak.Alarm.Event.{is_stop}
use ivckolpak.Session.State.{Library}
use ivckolpak.Session.Control.{stop_event}
use ivckolpak.Node.{Node, run_script, stop_alarm, on_alarm}
use ivckolpak.Manager.{
  timeout_stop, alarm_node, alarm_at, ActiveEvent, Meets, has_expired, split_expired, stop_all,
}

-- An event has lasted at least as long as its limit.
abbrev pub is_over : Library → ℕ → ActiveEvent → Bool
is_over lib now e = leb_double e.timeout_override (lib.seconds e.start_time now)

-- A node that is initialized ends its event: the script of the camera for that, and `stop_event`.
abbrev pub ended : Bytes → Node → Node
ended serial n =
    if n.initialized
    then (let m = run_script n.cfg.on_event_stop (timeout_stop serial) n in
        record m { session = stop_event m.session })
    else n

-- Node `j` ends each of the events that are over and its own.
abbrev pub ended_by : Library → ℕ → ℕ → Assoc ActiveEvent → Node → Node
ended_by lib now j [] n = n
ended_by lib now j ((k, e) ∷ es) n =
    ended_by lib now j es (if is_over lib now e && e.node_idx == j then ended k n else n)

-- A change of the element at a position, where there is one.
altered {ℓ} : {A : Type ℓ} → (A → A) → List A → ℕ → Option A → List A
altered f xs i none = xs
altered f xs i (some x) = set xs i (f x)

altered-cons {ℓ} :
    {A : Type ℓ} (f : A → A) (x : A) (xs : List A) (i : ℕ) (o : Option A)
    → altered f (x ∷ xs) (suc i) o ≡ x ∷ altered f xs i o
unfolding altered
altered-cons f x xs i none = refl
altered-cons f x xs i (some y) = refl

map-same {ℓ} :
    {A : Type ℓ} (f : A → A) (b : Bool) (o : Option A)
    → b ≡ false
    → o ≡ map (λ x. if b then f x else x) o
map-same f b none h = refl
map-same f b (some x) h = simp h refl

get-altered {ℓ} :
    {A : Type ℓ} (f : A → A) (xs : List A) (i j : ℕ)
    → get_elem? (altered f xs i (get_elem? xs i)) j
      ≡ map (λ x. if i == j then f x else x) (get_elem? xs j)
unfolding altered
get-altered f [] i j = refl
get-altered f (x ∷ xs) zero zero = refl
get-altered f (x ∷ xs) zero (suc j) = map-same f (0 == suc j) (get_elem? xs j) (ground arith)
get-altered f (x ∷ xs) (suc i) zero =
    ap (λ ys. get_elem? ys 0) (altered-cons f x xs i (get_elem? xs i))
    ∙ map-same f (suc i == 0) (some x) (ground arith)
get-altered f (x ∷ xs) (suc i) (suc j) =
    let e : (i == j) ≡ (suc i == suc j) = ground arith in
    ap (λ ys. get_elem? ys (suc j)) (altered-cons f x xs i (get_elem? xs i))
    ∙ get-altered f xs i j
    ∙ ap (λ b. map (λ x. if b then f x else x) (get_elem? xs j)) e

on_alarm-ended :
    (w : Meets) (serial : Bytes) (n : Node)
    → on_alarm w.lib w.at w.reply w.view (timeout_stop serial) n ≡ ended serial n
unfolding on_alarm stop_alarm is_stop bytes_eq to_lower
on_alarm-ended w serial n = elim (Bool-cases n.initialized) [
  | inl h ↦ simp h refl
  | inr h ↦ simp h refl
]

abbrev ended_at : Bytes → ℕ → ℕ → Node → Node
ended_at serial i j n = if i == j then ended serial n else n

get-alarm_at :
    (w : Meets) (serial : Bytes) (i : ℕ) (nodes : List Node) (o : Option Node)
    → alarm_at w (timeout_stop serial) i nodes o ≡ altered (ended serial) nodes i o
unfolding alarm_at altered
get-alarm_at w serial i nodes none = refl
get-alarm_at w serial i nodes (some n) = ap (set nodes i) (on_alarm-ended w serial n)

get-alarm_node :
    (w : Meets) (serial : Bytes) (i j : ℕ) (nodes : List Node)
    → get_elem? (alarm_node w (timeout_stop serial) i nodes) j
      ≡ map (ended_at serial i j) (get_elem? nodes j)
unfolding alarm_node
get-alarm_node w serial i j nodes =
    ap (λ ns. get_elem? ns j) (get-alarm_at w serial i nodes (get_elem? nodes i))
    ∙ get-altered (ended serial) nodes i j

map-map : (f g : Node → Node) (o : Option Node) → map f (map g o) ≡ map (λ n. f (g n)) o
map-map f g none = refl
map-map f g (some n) = refl

map-nothing : (o : Option Node) → o ≡ map (λ n. n) o
map-nothing none = refl
map-nothing (some n) = refl

abbrev ended_if : Meets → ℕ → Bytes → ActiveEvent → Assoc ActiveEvent → Bool → Node → Node
ended_if w j k e es b n =
    ended_by w.lib w.at.now j es (if b && e.node_idx == j then ended k n else n)

-- Every node ends its own events that are over, and nothing else happens to it.
pub get-stop_all :
    (w : Meets) (j : ℕ) (es : Assoc ActiveEvent) (nodes : List Node)
    → get_elem? (stop_all w (split_expired w.lib w.at.now es).1 nodes) j
      ≡ map (ended_by w.lib w.at.now j es) (get_elem? nodes j)
unfolding stop_all split_expired has_expired
get-stop_all w j [] nodes = map-nothing (get_elem? nodes j)
get-stop_all w j ((k, e) ∷ es) nodes = elim (Bool-cases (is_over w.lib w.at.now e)) [
  | inl h ↦ simp h (
      get-stop_all w j es (alarm_node w (timeout_stop k) e.node_idx nodes)
      ∙ ap (map (ended_by w.lib w.at.now j es)) (get-alarm_node w k e.node_idx j nodes)
      ∙ map-map (ended_by w.lib w.at.now j es) (ended_at k e.node_idx j) (get_elem? nodes j)
      ∙ ap (λ b. map (ended_if w j k e es b) (get_elem? nodes j)) (sym h))
  | inr h ↦ simp h (
      get-stop_all w j es nodes ∙ ap (λ b. map (ended_if w j k e es b) (get_elem? nodes j)) (sym h))
]
