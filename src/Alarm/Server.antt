-- ===== src/Alarm/Server.antt =====
-- alarm_server.cpp: the bytes of a client become alarms.
pub mod Frames
pub mod Append
pub mod Chunks
pub mod Settle
pub mod Client
use ivckolpak.Prelude.{
  ℕ, zero, suc, ◌+◌, ◌*◌, ◌≡◌, refl, Bool, true, false, List, [], ◌∷◌, ◌++◌, Option, none, some,
  ltb, ◌==◌, if◌then◌else◌, length, take, drop,
}
use ivckolpak.Prelude.Bytes.{Bytes, codes, is_empty}
use ivckolpak.Alarm.Event.{AlarmEvent}
use ivckolpak.Alarm.Frame.{find_json_end}
use ivckolpak.Alarm.Decode.{Root, decode}

abbrev pub max_buf : ℕ
max_buf = 32768

-- The buffer, what the callback was given in its order, and whether an exception left the function.
pub record Processed : Type 0 where
  pub buffer : Bytes
  pub alarms : List AlarmEvent
  pub thrown : Bool

abbrev pub returns : Bytes → Processed
returns buffer = record { buffer = buffer; alarms = []; thrown = false }

-- The buffer from its first `{` on; none where there is none.
unfoldable pub from_brace : Bytes → Option Bytes
from_brace [] = none
from_brace (c ∷ cs) = if c == b'{' then some (c ∷ cs) else from_brace cs

-- No `{` is there: a buffer that is too long is cleared.
unfoldable pub without_brace : Bytes → Processed
without_brace buffer = returns (if ltb max_buf (length buffer) then [] else buffer)

-- What one object gives, in front of what the rest of the loop gives.
unfoldable pub after_object : Bytes → Option (List AlarmEvent) → Option Processed → Option Processed
after_object left none more = some (record { buffer = left; alarms = []; thrown = true })
after_object left (some evts) none = none
after_object left (some evts) (some p) = some (record p { alarms = evts ++ p.alarms })

-- `json_parse` and what is read of its result.
module _ (json_parse : Bytes → Option Root) where
  -- The rest of a round, where the object ends at `end`; `again` is the loop from there on.
  unfoldable pub at_end : (Bytes → Option Processed) → Bytes → ℕ → Option Processed
  unfolding after_object decode
  at_end again b zero = some (returns b)
  at_end again b (suc n) =
      after_object (drop (suc n) b) (decode (json_parse (take (suc n) b))) (again (drop (suc n) b))

  unfoldable pub at_brace : (Bytes → Option Processed) → Bytes → Option Bytes → Option Processed
  unfolding without_brace at_end find_json_end
  at_brace again buffer none = some (without_brace buffer)
  at_brace again buffer (some b) = at_end again b (find_json_end b)

  -- The loop of `processBuffer`; none where the rounds do not suffice.
  unfoldable pub process : ℕ → Bytes → Option Processed
  unfolding from_brace at_brace
  process zero buffer = none
  process (suc fuel) buffer = at_brace (process fuel) buffer (from_brace buffer)

  -- Each round but the last takes bytes off.
  unfoldable pub process_buffer : Bytes → Option Processed
  unfolding process
  process_buffer buffer = process (suc (length buffer)) buffer

-- What `recv` returns.
pub data Recv : Type 0 where
  received : Bytes → Recv
  disconnected again failed : Recv

-- What a client's thread has done: the alarms it passed on, and whether an exception ended it.
pub record Served : Type 0 where
  pub alarms : List AlarmEvent
  pub thrown : Bool

abbrev pub silent : Served
silent = record { alarms = []; thrown = false }

abbrev pub add_served : List AlarmEvent → Option Served → Option Served
add_served evts none = none
add_served evts (some s) = some (record s { alarms = evts ++ s.alarms })

-- An exception ends the thread; else the reads go on.
unfoldable pub after_read : Bool → List AlarmEvent → Option Served → Option Served
after_read true evts more = some (record { alarms = evts; thrown = true })
after_read false evts more = add_served evts more

unfoldable pub then_read : Option Processed → (Bytes → Option Served) → Option Served
unfolding after_read
then_read none more = none
then_read (some p) more = after_read p.thrown p.alarms (more p.buffer)

module _ (json_parse : Bytes → Option Root) where
  -- `runClient` with a callback; the list ends where a stop is requested.
  unfoldable pub run_client : List Recv → Bytes → Option Served
  unfolding then_read process_buffer
  run_client [] buffer = some silent
  run_client (received b ∷ rs) buffer =
      then_read (process_buffer json_parse (buffer ++ b)) (run_client rs)
  run_client (disconnected ∷ rs) buffer = some silent
  run_client (again ∷ rs) buffer = run_client rs buffer
  run_client (failed ∷ rs) buffer = some silent
