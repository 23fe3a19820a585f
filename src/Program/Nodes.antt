-- ===== src/Program/Nodes.antt =====
-- camera_node.cpp and camera_manager.cpp: what the manager does to its nodes keeps of them.
use ivckolpak.Prelude.{
  ℕ, zero, suc, ◌≡◌, refl, sym, ◌∙◌, ap, Bool, true, false, List, [], ◌∷◌, Option, none, some,
  if◌then◌else◌, get_elem?, set, All, arith,
}
use mathlib.Core.Path.{subst}
use ivckolpak.Prelude.Bytes.{Bytes}
use ivckolpak.Prelude.Int.{pos, ◌≤ℤ◌, ◌+ℤ◌}
use ivckolpak.Prelude.Double.{leb_double, zero_double}
use ivckolpak.Alarm.Event.{AlarmEvent}
use ivckolpak.Config.Types.{CameraConfig, GlobalConfig}
use ivckolpak.Session.Packet.{AvPacket}
use ivckolpak.Session.State.{Session, Library, RotateReply, OpenReply, Moment}
use ivckolpak.Session.Valid.{IsValid}
use ivckolpak.Session.Valid.Push.{push_packet_total}
use ivckolpak.Session.Valid.Control.End.{force_stop-IsValid, shutdown-IsValid}
use ivckolpak.Session.Control.{shutdown, force_stop}
use ivckolpak.Session.Run.{new_session-IsValid}
use ivckolpak.Node.{
  StreamView, Node, new_node, initialize, stop, on_alarm, on_packet, on_rtsp_connection_lost,
  run_script, continue_alarm, new_alarm, stop_alarm,
}
use ivckolpak.Node.Valid.{on_alarm-IsValid}
use ivckolpak.Program.{stop_nodes}
use ivckolpak.Manager.{
  Manager, Meets, alarm_at, alarm_node, dispatch_at, dispatch, on_event, note_event, split_expired,
  stop_all, check_timeouts, timeout_stop, node_of, make_nodes,
}

some_inj {ℓ} : {A : Type ℓ} {x y : A} → some x ≡ some y → x ≡ y
some_inj e = cc

module _ {ℓ κ} {A : Type ℓ} (P : A → Type κ) where
  pub All-get_elem? : (xs : List A) (i : ℕ) (x : A) → All P xs → get_elem? xs i ≡ some x → P x
  All-get_elem? [] i x h e = absurd cc
  All-get_elem? (y ∷ xs) zero x h e = subst P (some_inj e) h.0
  All-get_elem? (y ∷ xs) (suc i) x h e = All-get_elem? xs i x h.1 e

  pub All-set : (xs : List A) (i : ℕ) (x : A) → All P xs → P x → All P (set xs i x)
  All-set [] i x h p = tt
  All-set (y ∷ xs) zero x h p = (p, h.1)
  All-set (y ∷ xs) (suc i) x h p = (h.0, All-set xs i x h.1 p)

-- A node whose stream and session run.
pub record IsLive (n : Node) : Type 0 where
  pub session : IsValid n.session
  pub initialized : n.initialized ≡ true

-- A node that has been stopped.
pub record IsStopped (n : Node) : Type 0 where
  pub session : IsValid n.session
  pub no_output : n.session.out_fmt_ctx ≡ none

run_script-initialized :
    (cmd : Bytes) (evt : AlarmEvent) (n : Node) → (run_script cmd evt n).initialized ≡ n.initialized
unfolding run_script
run_script-initialized cmd evt n = ground arith

on_alarm-initialized :
    (lib : Library) (at : Moment) (r : OpenReply) (view : StreamView) (evt : AlarmEvent) (n : Node)
    → (on_alarm lib at r view evt n).initialized ≡ n.initialized
unfolding on_alarm stop_alarm continue_alarm new_alarm
on_alarm-initialized lib at r view evt n = ground (
  arith,
  run_script-initialized n.cfg.on_event_stop evt n,
  run_script-initialized n.cfg.on_event_start evt n,
  run_script-initialized n.cfg.on_event_start evt
      (record n { event_counter = n.event_counter +ℤ pos 1 }),
)

on_alarm-IsLive :
    (w : Meets) (evt : AlarmEvent) (n : Node)
    → IsLive n
    → IsLive (on_alarm w.lib w.at w.reply w.view evt n)
on_alarm-IsLive w evt n v = record {
  session = on_alarm-IsValid w.lib w.at w.reply w.view evt n v.session;
  initialized = on_alarm-initialized w.lib w.at w.reply w.view evt n ∙ v.initialized;
}

-- Every node is live.
abbrev pub AllLive : List Node → Type 0
AllLive ns = All IsLive ns

alarm_at-AllLive :
    (w : Meets) (evt : AlarmEvent) (i : ℕ) (ns : List Node) (o : Option Node)
    → get_elem? ns i ≡ o
    → AllLive ns
    → AllLive (alarm_at w evt i ns o)
unfolding alarm_at
alarm_at-AllLive w evt i ns none e v = v
alarm_at-AllLive w evt i ns (some n) e v =
    All-set IsLive ns i _ v (on_alarm-IsLive w evt n (All-get_elem? IsLive ns i n v e))

alarm_node-AllLive :
    (w : Meets) (evt : AlarmEvent) (i : ℕ) (ns : List Node)
    → AllLive ns
    → AllLive (alarm_node w evt i ns)
unfolding alarm_node
alarm_node-AllLive w evt i ns v = alarm_at-AllLive w evt i ns _ refl v

note_event-nodes :
    (now i : ℕ) (evt : AlarmEvent) (m : Manager) → (note_event now i evt m).nodes ≡ m.nodes
unfolding note_event
note_event-nodes now i evt m = ground arith

dispatch_at-AllLive :
    (w : Meets) (evt : AlarmEvent) (i : ℕ) (m : Manager) (o : Option Node)
    → AllLive m.nodes
    → AllLive (dispatch_at w evt i m o).nodes
unfolding dispatch_at
dispatch_at-AllLive w evt i m none v = v
dispatch_at-AllLive w evt i m (some n) v =
    subst AllLive
      (sym (note_event-nodes w.at.now i evt (record m { nodes = alarm_node w evt i m.nodes })))
      (alarm_node-AllLive w evt i m.nodes v)

dispatch-AllLive :
    (w : Meets) (evt : AlarmEvent) (o : Option ℕ) (m : Manager)
    → AllLive m.nodes
    → AllLive (dispatch w evt o m).nodes
unfolding dispatch
dispatch-AllLive w evt none m v = v
dispatch-AllLive w evt (some i) m v = dispatch_at-AllLive w evt i m _ v

pub on_event-AllLive :
    (w : Meets) (evt : AlarmEvent) (m : Manager)
    → AllLive m.nodes
    → AllLive (on_event w evt m).nodes
unfolding on_event
on_event-AllLive w evt m v = dispatch-AllLive w evt _ m v

stop_all-AllLive :
    (w : Meets) (over : List (Bytes × ℕ)) (ns : List Node)
    → AllLive ns
    → AllLive (stop_all w over ns)
unfolding stop_all
stop_all-AllLive w [] ns v = v
stop_all-AllLive w ((serial, i) ∷ over) ns v =
    stop_all-AllLive w over _ (alarm_node-AllLive w (timeout_stop serial) i ns v)

choose-AllLive :
    (b : Bool) (m n : Manager)
    → AllLive m.nodes
    → AllLive n.nodes
    → AllLive (if b then m else n).nodes
choose-AllLive true m n v w = v
choose-AllLive false m n v w = w

pub check_timeouts-AllLive :
    (w : Meets) (m : Manager) → AllLive m.nodes → AllLive (check_timeouts w m).nodes
unfolding check_timeouts
check_timeouts-AllLive w m v =
    choose-AllLive (leb_double m.cfg.global.max_event_total_duration_s zero_double) m _ v
      (stop_all-AllLive w (split_expired w.lib w.at.now m.active).1 m.nodes v)

node_of-session :
    (g : GlobalConfig) (c : CameraConfig) → pos 0 ≤ℤ g.pre_buffer_iframes → IsLive (node_of g c)
unfolding node_of new_node initialize
node_of-session g c h = record {
  session = new_session-IsValid _ (ground arith);
  initialized = refl;
}

pub make_nodes-AllLive :
    (g : GlobalConfig) (cs : List CameraConfig)
    → pos 0 ≤ℤ g.pre_buffer_iframes
    → AllLive (make_nodes g cs)
unfolding make_nodes
make_nodes-AllLive g [] h = tt
make_nodes-AllLive g (c ∷ cs) h = (node_of-session g c h, make_nodes-AllLive g cs h)

-- A call of a live node returns a live node.
abbrev pub Returns : Option Node → Type 0
Returns o = (n : Node) × (o ≡ some n) × IsLive n

with_session : Node → Option Session → Option Node
with_session n none = none
with_session n (some s) = some (record n { session = s })

pub on_packet-Returns :
    (lib : Library) (now : ℕ) (r : RotateReply) (p : AvPacket) (n : Node)
    → IsLive n
    → Returns (on_packet lib now r p n)
unfolding on_packet
on_packet-Returns lib now r p n v =
    let (s, e, w) = push_packet_total lib now r (some p) n.session v.session in
    (
      record n { session = s },
      ap
          (λ o. elim o as (λ x. Option Node) [
            | none ↦ none
            | some t ↦ some (record n { session = t })
          ])
          e,
      record { session = w; initialized = v.initialized },
    )

pub connection_lost-IsLive :
    (ok : Bool) (n : Node) → IsLive n → IsLive (on_rtsp_connection_lost ok n)
unfolding on_rtsp_connection_lost
connection_lost-IsLive ok n v =
    let lost = λ (b : Bool). if b then record n { session = force_stop ok n.session } else n in
    subst (λ b. IsLive (lost b)) (sym v.initialized)
      (record { session = force_stop-IsValid ok n.session v.session; initialized = v.initialized })

stop-IsStopped : (ok : Bool) (n : Node) → IsLive n → IsStopped (stop ok n)
unfolding stop
stop-IsStopped ok n v =
    let stopped = λ (b : Bool).
      if b then record n { initialized = false; session = shutdown ok n.session } else n in
    subst (λ b. IsStopped (stopped b)) (sym v.initialized)
      (record {
        session = shutdown-IsValid ok n.session v.session;
        no_output = unfold shutdown in refl;
      })

pub stop_nodes-IsStopped :
    (oks : ℕ → Bool) (i : ℕ) (ns : List Node) → AllLive ns → All IsStopped (stop_nodes oks i ns)
unfolding stop_nodes
stop_nodes-IsStopped oks i [] v = tt
stop_nodes-IsStopped oks i (n ∷ ns) v =
    (stop-IsStopped (oks i) n v.0, stop_nodes-IsStopped oks (suc i) ns v.1)
