-- ===== src/Ws/Client/Thread.antt =====
-- The thread of `WebSocketClient::run` in src/okx_ws_client.cpp, the work of `ioContext` that it does,
-- and the destructor that stops it, as steps that are each taken at once.
pub mod Work
pub mod Shutdown
mod Examples
use okx_cpp_api.Prelude.{
  ℕ, zero, suc, ◌+◌, Bool, true, false, Option, none, some, List, [], ◌∷◌, if◌then◌else◌,
}

-- Where `ioThread` is: no thread; before `isRunning = true` of the loop; before the test of `stopped()`; past
-- it, between two handlers; in a handler; past `ioContext.run()`; past the first `isRunning = false`; past
-- the second, which ends it.
pub data Phase : Type 0 where
  no_thread starting flagged looping handling returned leaving ended : Phase

-- `work` is how many operations are outstanding on `ioContext`, without the one whose handler runs;
-- `stopped` is `ioContext.stopped()`.
pub record Io : Type 0 where
  pub work : ℕ
  pub stopped : Bool
  pub is_running : Bool
  pub phase : Phase

pub new_io : Io
new_io = record { work = 0; stopped = false; is_running = false; phase = no_thread }

-- A session that begins to resolve, a call of `run`, the stop of the destructor, and what the thread
-- does: it sets the flag, and restarts the context if that is stopped; an operation completes and its
-- handler is called; a handler that has begun `new` operations ends, or throws, which the loop catches
-- before it goes round; `ioContext.run()` returns; and the flag is cleared, in the loop and behind it.
pub data IoEvent : Type 0 where
  posted run_called stop_called : IoEvent
  flag_set checked completed : IoEvent
  handled : ℕ → IoEvent
  handler_threw : ℕ → IoEvent
  ran_out cleared cleared_again : IoEvent

-- `run`; `none` when its join has to wait for a thread that is at work. A thread that is past the first
-- clear is waited for, and clears the flag that `run` has set before the new thread begins.
pub call_run : Io → Option Io
call_run io = if io.is_running then some io else elim io.phase [
  | no_thread ↦ some (record io { is_running = true; phase = starting })
  | leaving ↦ some (record io { is_running = false; phase = starting })
  | ended ↦ some (record io { is_running = true; phase = starting })
  | _ ↦ none
]

-- An operation that is outstanding completes, unless the context is stopped.
pub begin_handler : Io → Option Io
begin_handler io = if io.stopped then none else elim io.work [
  | zero ↦ none
  | suc others ↦ some (record io { work = others; phase = handling })
]

-- `ioContext.run()` returns when it is stopped, or nothing is outstanding.
pub return_from_run : Io → Option Io
return_from_run io =
    let end = some (record io { stopped = true; phase = returned }) in
    if io.stopped then end else elim io.work [ zero ↦ end | suc others ↦ none ]

-- One event, where it can happen.
pub io_effect : IoEvent → Io → Option Io
unfolding call_run begin_handler return_from_run
io_effect posted io = some (record io { work = suc (io.work) })
io_effect run_called io = call_run io
io_effect stop_called io = some (record io { stopped = true })
io_effect flag_set io = elim io.phase [
  | starting ↦ some (record io { is_running = true; phase = flagged })
  | _ ↦ none
]
io_effect checked io = elim io.phase [
  | flagged ↦ some (record io { stopped = false; phase = looping })
  | _ ↦ none
]
io_effect completed io = elim io.phase [ looping ↦ begin_handler io | _ ↦ none ]
io_effect (handled new) io = elim io.phase [
  | handling ↦ some (record io { work = io.work + new; phase = looping })
  | _ ↦ none
]
io_effect (handler_threw new) io = elim io.phase [
  | handling ↦ some (record io { work = io.work + new; phase = starting })
  | _ ↦ none
]
io_effect ran_out io = elim io.phase [ looping ↦ return_from_run io | _ ↦ none ]
io_effect cleared io = elim io.phase [
  | returned ↦ some (record io { is_running = false; phase = leaving })
  | _ ↦ none
]
io_effect cleared_again io = elim io.phase [
  | leaving ↦ some (record io { is_running = false; phase = ended })
  | _ ↦ none
]

pub io_events : Io → List IoEvent → Option Io
unfolding io_effect
io_events io [] = some io
io_events io (e ∷ es) = elim (io_effect e io) [ none ↦ none | some io' ↦ io_events io' es ]
