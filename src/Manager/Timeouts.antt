-- ===== src/Manager/Timeouts.antt =====
-- camera_manager.cpp `check_timeouts`: the ending of events that last too long.
use ivckolpak.Prelude.{
  ℕ, ◌≡◌, refl, ◌∙◌, ap, Bool, true, false, [], ◌∷◌, some, if◌then◌else◌, Bool-cases, inl, inr,
  get_elem?,
}
use mathlib.Core.Option.{map}
use ivckolpak.Prelude.Bytes.{bytes_eq_refl}
use ivckolpak.Prelude.Assoc.{Assoc, lookup, lookup-insert}
use ivckolpak.Prelude.Double.{ltb_double, leb_double, zero_double}
use ivckolpak.Alarm.Event.{AlarmEvent, is_start}
use ivckolpak.Config.Types.{CameraConfig, GlobalConfig}
use ivckolpak.Session.State.{Library}
use ivckolpak.Manager.{
  ActiveEvent, Manager, Meets, timeout_of, note_event, has_expired, split_expired, stop_all,
  check_timeouts,
}
use ivckolpak.Manager.Stops.{is_over, ended_by, get-stop_all}

-- The events that are not over, in their order.
abbrev pub going_on : Library → ℕ → Assoc ActiveEvent → Assoc ActiveEvent
going_on lib now [] = []
going_on lib now ((k, e) ∷ es) =
    let rest = going_on lib now es in if is_over lib now e then rest else (k, e) ∷ rest

split_expired-going :
    (lib : Library) (now : ℕ) (es : Assoc ActiveEvent)
    → (split_expired lib now es).0 ≡ going_on lib now es
unfolding split_expired has_expired
split_expired-going lib now [] = refl
split_expired-going lib now ((k, e) ∷ es) = elim (Bool-cases (is_over lib now e)) [
  | inl h ↦ simp (h, split_expired-going lib now es)
  | inr h ↦ simp (h, split_expired-going lib now es)
]

-- Where the global limit is positive, `check_timeouts` ends just the events that have lasted as long as their
-- limit: the others stay active, in their order. Each node that is initialized runs its script for the end of
-- an event and `stop_event` for each of the events that are over and its own, one after the other, and nothing
-- else happens to any node.
pub check_timeouts_lem :
    (w : Meets) (m : Manager)
    → leb_double m.cfg.global.max_event_total_duration_s zero_double ≡ false
    → ((check_timeouts w m).active ≡ going_on w.lib w.at.now m.active)
      × ((j : ℕ)
          → get_elem? (check_timeouts w m).nodes j
            ≡ map (ended_by w.lib w.at.now j m.active) (get_elem? m.nodes j))
unfolding check_timeouts
check_timeouts_lem w m h =
    let checked = λ (b : Bool). if b then m else record m {
      active = (split_expired w.lib w.at.now m.active).0;
      nodes = stop_all w (split_expired w.lib w.at.now m.active).1 m.nodes;
    } in
    (
      ap (λ b. (checked b).active) h ∙ split_expired-going w.lib w.at.now m.active,
      λ j. ap (λ b. get_elem? (checked b).nodes j) h ∙ get-stop_all w j m.active m.nodes,
    )

timeout_of_own :
    (g : GlobalConfig) (c : CameraConfig)
    → ltb_double zero_double c.max_event_total_duration_s ≡ true
    → timeout_of g (some c) ≡ c.max_event_total_duration_s
unfolding timeout_of
timeout_of_own g c h =
    ap (λ b. if b then c.max_event_total_duration_s else g.max_event_total_duration_s) h

-- The event that a start notes.
note_start :
    (now idx : ℕ) (evt : AlarmEvent) (m : Manager)
    → is_start evt ≡ true
    → lookup evt.serial_id (note_event now idx evt m).active
      ≡ some (record {
        start_time = now;
        node_idx = idx;
        timeout_override = timeout_of m.cfg.global (get_elem? m.cfg.cameras idx);
      })
unfolding note_event
note_start now idx evt m h =
    let e : ActiveEvent = record {
      start_time = now;
      node_idx = idx;
      timeout_override = timeout_of m.cfg.global (get_elem? m.cfg.cameras idx);
    } in
    simp h (
      lookup-insert evt.serial_id evt.serial_id e m.active
      ∙ ap (λ b. if b then some e else lookup evt.serial_id m.active) (bytes_eq_refl evt.serial_id))

note_event-cfg :
    (now idx : ℕ) (evt : AlarmEvent) (m : Manager)
    → is_start evt ≡ true
    → (note_event now idx evt m).cfg ≡ m.cfg
unfolding note_event
note_event-cfg now idx evt m h = simp h

no_check :
    (w : Meets) (m : Manager)
    → leb_double m.cfg.global.max_event_total_duration_s zero_double ≡ true
    → (check_timeouts w m).active ≡ m.active
unfolding check_timeouts
no_check w m h = simp h

-- A camera's own limit is not applied where the global one is not positive: the event that a start notes for
-- a camera with a limit of its own carries that limit, and is still active after `check_timeouts`, at
-- whatever time it is called.
pub camera_limit_ignored :
    (now idx : ℕ) (evt : AlarmEvent) (c : CameraConfig) (w : Meets) (m : Manager)
    → is_start evt ≡ true
    → get_elem? m.cfg.cameras idx ≡ some c
    → ltb_double zero_double c.max_event_total_duration_s ≡ true
    → leb_double m.cfg.global.max_event_total_duration_s zero_double ≡ true
    → lookup evt.serial_id (check_timeouts w (note_event now idx evt m)).active
      ≡ some (record {
        start_time = now;
        node_idx = idx;
        timeout_override = c.max_event_total_duration_s;
      })
camera_limit_ignored now idx evt c w m h e p g =
    let noted = note_event now idx evt m in
    ap (lookup evt.serial_id) (
      no_check w noted (
        ap (λ x. leb_double x.global.max_event_total_duration_s zero_double)
          (note_event-cfg now idx evt m h)
        ∙ g))
    ∙ note_start now idx evt m h
    ∙ ap (λ t. some (record { start_time = now; node_idx = idx; timeout_override = t }))
        (ap (timeout_of m.cfg.global) e ∙ timeout_of_own m.cfg.global c p)
