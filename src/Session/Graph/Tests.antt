-- ===== src/Session/Graph/Tests.antt =====
-- A call along the diagram of the states.
use ivckolpak.Prelude.{◌≡◌, refl, true, some}
use ivckolpak.Prelude.Int.{pos}
use ivckolpak.Session.State.{recording, post_buffer, Session, new_session}
use ivckolpak.Session.Control.{stop_event}
use ivckolpak.Session.Run.{stop, call}
use ivckolpak.Session.Graph.{Edge, stopping}
use ivckolpak.Session.Graph.Calls.{call-Edge}
use ivckolpak.Samples.{yard, lib}

abbrev filming : Session
filming =
    record (new_session (record {
      camera_cfg = yard;
      pre_buffer_iframes = pos 2;
      post_buffer_iframes = pos 1;
      on_video_save = true;
    })) { state = recording }

stops : call lib stop filming ≡ some (stop_event filming)
unfolding call
stops = refl

stopped : (stop_event filming).state ≡ post_buffer
unfolding stop_event
stopped = refl

call-Edge_example : Edge stopping recording (stop_event filming).state
call-Edge_example = call-Edge lib stop filming (stop_event filming) stops
