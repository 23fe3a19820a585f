-- ===== src/Program/Valid.antt =====
-- main.cpp: the running program, and its end.
use ivckolpak.Prelude.{
  ℕ, ◌≡◌, refl, sym, ◌∙◌, ap, Bool, true, false, List, [], ◌∷◌, ◌++◌, Option, none, some,
  if◌then◌else◌, get_elem?, set, All, Bool-cases, inl, inr,
}
use mathlib.Core.Path.{subst}
use ivckolpak.Prelude.Bytes.{Bytes}
use ivckolpak.Alarm.Event.{AlarmEvent}
use ivckolpak.Alarm.Decode.{Root}
use ivckolpak.Alarm.Queue.{AlarmQueue, try_pop}
use ivckolpak.Alarm.Server.{Processed}
use ivckolpak.Alarm.Server.Frames.{Frames-total, process_buffer-Frames}
use ivckolpak.Node.{Node, on_packet, on_rtsp_connection_lost}
use ivckolpak.Manager.{Meets, check_timeouts}
use ivckolpak.Program.{
  Program, read_by, handle, with_node, at_node, stop_manager, shut_down, Op, client_data,
  client_gone, alarm_round, monitor_round, packet, connection_lost, end_of_main, act, step, run,
  ◌>>=◌,
}
use ivckolpak.Program.Nodes.{
  IsLive, IsStopped, AllLive, All-get_elem?, All-set, on_event-AllLive, check_timeouts-AllLive,
  Returns, on_packet-Returns, connection_lost-IsLive, stop_nodes-IsStopped,
}

-- The nodes are live while the manager runs, and stopped after it.
abbrev NodesOk : Bool → List Node → Type 0
NodesOk true ns = AllLive ns
NodesOk false ns = All IsStopped ns

abbrev pub IsSound : Program → Type 0
IsSound s = NodesOk s.running s.manager.nodes

-- A step that returns, into a state where the nodes are as they should be.
abbrev pub Steps : Option Program → Type 0
Steps o = (t : Program) × (o ≡ some t) × IsSound t

some_if :
    (b : Bool) (s t : Program)
    → Steps (if b then some s else some t)
    → Steps (some (if b then s else t))
some_if true s t v = v
some_if false s t v = v

choose-Steps : (b : Bool) (s t : Option Program) → Steps s → Steps t → Steps (if b then s else t)
choose-Steps true s t v w = v
choose-Steps false s t v w = w

-- While the manager runs `s` is taken, and after it `t`.
while_running :
    (p : Program) (s t : Option Program)
    → (AllLive p.manager.nodes → p.running ≡ true → Steps s)
    → (IsSound p → Steps t)
    → IsSound p
    → Steps (if p.running then s else t)
while_running p s t f g v = elim (Bool-cases p.running) [
  | inl h ↦
      subst (λ b. Steps (if b then s else t)) (sym h)
        (f (subst (λ b. NodesOk b p.manager.nodes) h v) h)
  | inr h ↦ subst (λ b. Steps (if b then s else t)) (sym h) (g v)
]

IsSound-at : (p : Program) → p.running ≡ true → AllLive p.manager.nodes → IsSound p
IsSound-at p h v = subst (λ b. NodesOk b p.manager.nodes) (sym h) v

handle-Steps :
    (w : Meets) (r : Option AlarmEvent × AlarmQueue) (s : Program)
    → AllLive s.manager.nodes
    → s.running ≡ true
    → Steps (some (handle w r s))
unfolding handle
handle-Steps w (none, q) s v h = (_, refl, IsSound-at (record s { queue = q }) h v)
handle-Steps w (some e, q) s v h =
    (_, refl, IsSound-at (handle w (some e, q) s) h (on_event-AllLive w e s.manager v))

with_node-Steps :
    (i : ℕ) (o : Option Node) (s : Program)
    → Returns o
    → AllLive s.manager.nodes
    → s.running ≡ true
    → Steps (with_node i o s)
unfolding with_node
with_node-Steps i o s (n, e, l) v h = (
  _,
  ap (λ x. with_node i x s) e,
  IsSound-at (record s { manager = record s.manager { nodes = set s.manager.nodes i n } }) h
      (All-set IsLive s.manager.nodes i n v l),
)

at_node-Steps :
    (i : ℕ) (call : Node → Option Node) (o : Option Node) (s : Program)
    → ((n : Node) → IsLive n → Returns (call n))
    → get_elem? s.manager.nodes i ≡ o
    → AllLive s.manager.nodes
    → s.running ≡ true
    → Steps (at_node i call o s)
unfolding at_node
at_node-Steps i call none s f e v h = (s, refl, IsSound-at s h v)
at_node-Steps i call (some n) s f e v h =
    with_node-Steps i (call n) s (f n (All-get_elem? IsLive s.manager.nodes i n v e)) v h

read_by-Steps :
    (c : ℕ) (o : Option Processed) (s : Program)
    → ((p : Processed) × (o ≡ some p))
    → IsSound s
    → Steps (read_by c o s)
unfolding read_by
read_by-Steps c o s (p, e) v = (_, ap (λ x. read_by c x s) e, v)

stop_manager-IsStopped :
    (oks : ℕ → Bool) (s : Program)
    → IsSound s
    → ((stop_manager oks s).running ≡ false) × All IsStopped (stop_manager oks s).manager.nodes
unfolding stop_manager
stop_manager-IsStopped oks s v = elim (Bool-cases s.running) [
  | inl h ↦ simp h (
    refl,
    stop_nodes-IsStopped oks 0 s.manager.nodes (subst (λ b. NodesOk b s.manager.nodes) h v),
  )
  | inr h ↦ simp h (refl, subst (λ b. NodesOk b s.manager.nodes) h v)
]

pub shut_down-IsStopped :
    (oks : ℕ → Bool) (s : Program)
    → IsSound s
    → ((shut_down oks s).running ≡ false) × All IsStopped (shut_down oks s).manager.nodes
unfolding shut_down
shut_down-IsStopped oks s v = stop_manager-IsStopped oks s v

shut_down-Steps : (oks : ℕ → Bool) (s : Program) → IsSound s → Steps (some (shut_down oks s))
shut_down-Steps oks s v =
    let (h, c) = shut_down-IsStopped oks s v in
    (_, refl, subst (λ b. NodesOk b (shut_down oks s).manager.nodes) (sym h) c)

module _ (json_parse : Bytes → Option Root) where
  act-Steps : (op : Op) (s : Program) → IsSound s → Steps (act json_parse op s)
  unfolding act
  act-Steps (client_data c b) s v =
      let (p, f) = Frames-total json_parse (s.clients c ++ b) in
      choose-Steps s.listening _ _
        (read_by-Steps c _ s (p, process_buffer-Frames json_parse (s.clients c ++ b) p f) v)
        (s, refl, v)
  act-Steps (client_gone c) s v = (_, refl, v)
  act-Steps (alarm_round w) s v =
      some_if s.running _ _
        (while_running s _ _ (λ l h. handle-Steps w (try_pop s.queue) s l h) (λ u. (s, refl, u)) v)
  act-Steps (monitor_round w) s v = some_if s.running _ _ (
      while_running s _ _
        (λ l h. (
          _,
          refl,
          IsSound-at (record s { manager = check_timeouts w s.manager }) h
              (check_timeouts-AllLive w s.manager l),
        ))
        (λ u. (s, refl, u)) v)
  act-Steps (packet i lib now r p) s v =
      while_running s _ _
        (λ l h.
          at_node-Steps i (on_packet lib now r p) _ s (on_packet-Returns lib now r p) refl l h)
        (λ u. (s, refl, u)) v
  act-Steps (connection_lost i ok) s v =
      while_running s _ _
        (λ l h.
          at_node-Steps i (λ n. some (on_rtsp_connection_lost ok n)) _ s
            (λ n k. (_, refl, connection_lost-IsLive ok n k)) refl l h)
        (λ u. (s, refl, u)) v
  act-Steps (end_of_main oks) s v = shut_down-Steps oks s v

  step-Steps : (op : Op) (s : Program) → IsSound s → Steps (step json_parse op s)
  unfolding step
  step-Steps op s v = choose-Steps s.crashed _ _ (s, refl, v) (act-Steps op s v)

  pub run-Steps : (ops : List Op) (s : Program) → IsSound s → Steps (run json_parse ops s)
  unfolding run
  run-Steps [] s v = (s, refl, v)
  run-Steps (op ∷ ops) s v =
      let (t, e, w) = step-Steps op s v in
      let (u, f, x) = run-Steps ops t w in (u, ap (λ o. o >>= run json_parse ops) e ∙ f, x)
