-- ===== src/Ws/Client/Thread/Examples.antt =====
-- A thread that has come to the gap, and one that is stopped.
use okx_cpp_api.Prelude.{◌-◌, ◌≤◌, ◌≡◌, refl, true, false, some, List, [], ◌∷◌}
use okx_cpp_api.Ws.Client.Thread.{
  looping, returned, handling, starting, Io, new_io, IoEvent, posted, run_called, flag_set, checked,
  handled, ran_out, cleared, call_run, begin_handler, return_from_run, io_effect, io_events,
  completed,
}
use okx_cpp_api.Ws.Client.Thread.Shutdown.{steps_left, is_past, Finishes, stop-Ends}
use okx_cpp_api.Ws.Client.Thread.Work.{Taken, io_events-Taken}

-- One session whose only operation fails.
abbrev first_session : List IoEvent
first_session = posted ∷ run_called ∷ flag_set ∷ checked ∷ completed ∷ handled 0 ∷ ran_out ∷ []

abbrev in_gap : Io
in_gap = record { work = 0; stopped = true; is_running = true; phase = returned }

io_events-Taken_example : Taken in_gap
unfolding io_events io_effect call_run begin_handler return_from_run new_io
io_events-Taken_example = io_events-Taken first_session in_gap refl

-- A `run` behind the first clear: the thread before it clears the flag that this `run` has set.
flag_lost :
    io_events new_io (
      posted
      ∷ run_called
      ∷ flag_set
      ∷ checked
      ∷ completed
      ∷ handled 0
      ∷ ran_out
      ∷ cleared
      ∷ posted
      ∷ run_called
      ∷ [])
    ≡ some (record { work = 1; stopped = true; is_running = false; phase = starting })
unfolding io_events io_effect call_run begin_handler return_from_run new_io
flag_lost = refl

-- A stop while a handler runs, with another operation outstanding.
abbrev busy : Io
busy = record { work = 1; stopped = false; is_running = true; phase = handling }

abbrev busy_stopped : Io
busy_stopped = record { work = 1; stopped = true; is_running = true; phase = handling }

-- The handler ends, with a further operation.
abbrev busy_later : Io
busy_later = record { work = 2; stopped = true; is_running = true; phase = looping }

stop-Ends_example :
    Finishes busy_later (steps_left handling - 1)
    × (1 ≤ steps_left handling)
    × (steps_left handling ≤ 4)
unfolding io_effect io_events is_past
stop-Ends_example = stop-Ends busy busy_stopped busy_later (handled 1 ∷ []) refl refl (tt, tt) refl
