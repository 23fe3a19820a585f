-- ===== src/Manager/Tests.antt =====
-- A manager with two cameras, and the theorems at it.
use ivckolpak.Prelude.{ℕ, get_elem?, ◌<◌, ◌≡◌, refl, true, false, [], ◌∷◌, some, length, arith}
use ivckolpak.Prelude.Int.{pos}
use ivckolpak.Prelude.Bytes.{codes, bytes_eq, to_lower}
use ivckolpak.Prelude.Assoc.{lookup}
use ivckolpak.Prelude.Double.{zero_double, leb_double, ltb_double}
use ivckolpak.Alarm.Event.{is_start}
use ivckolpak.Session.Valid.{IsValid}
use ivckolpak.Session.Run.{new_session-IsValid}
use ivckolpak.Node.{Node, new_node}
use ivckolpak.Manager.{Manager, initialize_manager, find_idx, note_event, check_timeouts}
use ivckolpak.Samples.{sixty, half_minute, global, yard, roof, parsed, lib, meets, alarm}
use ivckolpak.Manager.Index.{find_idx_bounded, find_idx_serial}
use ivckolpak.Config.Repository.{empty, get_camera, registered}
use ivckolpak.Manager.Registered.{numbered, registered_agrees}
use ivckolpak.Manager.Stops.{ended_by}
use ivckolpak.Manager.Timeouts.{going_on, check_timeouts_lem, camera_limit_ignored}
use mathlib.Core.Option.{map}

by_serial : find_idx (codes "S2") [] [] (initialize_manager parsed).indices ≡ some 1
unfolding find_idx initialize_manager bytes_eq
by_serial = refl

by_address :
    find_idx (codes "?") (codes "0x0A000007") [] (initialize_manager parsed).indices ≡ some 0
unfolding find_idx initialize_manager bytes_eq
by_address = refl

find_idx_bounded_example : 1 < length (initialize_manager parsed).nodes
find_idx_bounded_example = find_idx_bounded parsed (codes "S2") [] [] 1 by_serial

lacks : bytes_eq roof.serialid yard.serialid ≡ false
unfolding bytes_eq
lacks = refl

find_idx_serial_example :
    find_idx (codes "S1") (codes "x") (codes "y") (initialize_manager parsed).indices ≡ some 0
find_idx_serial_example = find_idx_serial parsed 0 yard (codes "x") (codes "y") refl (lacks, tt)

starts : is_start alarm ≡ true
unfolding is_start bytes_eq to_lower
starts = refl

abbrev busy : Manager
busy = record (initialize_manager parsed) {
  cfg = parsed;
  active =
      (codes "S1", record { start_time = 0; node_idx = 0; timeout_override = half_minute }) ∷ [];
}

limited : leb_double sixty zero_double ≡ false
unfolding leb_double
limited = refl

check_timeouts_lem_example :
    ((check_timeouts meets busy).active ≡ going_on lib 60 busy.active)
    × ((j : ℕ)
        → get_elem? (check_timeouts meets busy).nodes j
          ≡ map (ended_by lib 60 j busy.active) (get_elem? busy.nodes j))
check_timeouts_lem_example = check_timeouts_lem meets busy limited

abbrev unlimited : Manager
unlimited = record busy {
  cfg = record parsed { global = record global { max_event_total_duration_s = zero_double } };
  active = [];
}

own : ltb_double zero_double half_minute ≡ true
unfolding ltb_double
own = refl

never : leb_double zero_double zero_double ≡ true
unfolding leb_double
never = refl

camera_limit_ignored_example :
    lookup (codes "S1") (check_timeouts meets (note_event 0 0 alarm unlimited)).active
    ≡ some (record { start_time = 0; node_idx = 0; timeout_override = half_minute })
camera_limit_ignored_example =
    camera_limit_ignored 0 0 alarm yard meets unlimited starts refl own never

abbrev node : Node
node = record (new_node yard (pos 2) (pos 1)) { initialized = true }

node-IsValid : IsValid node.session
unfolding new_node
node-IsValid = new_session-IsValid _ (omega arith)

registered_found : get_camera (codes "S2") (registered parsed empty) ≡ some roof
unfolding get_camera registered bytes_eq
registered_found = refl

registered_agrees_example :
    get_camera (codes "S2") (registered parsed empty)
    ≡ numbered parsed.cameras (lookup (codes "S2") (initialize_manager parsed).indices.by_serial)
registered_agrees_example = registered_agrees parsed (codes "S2")
