-- ===== src/Ws/Client/Thread/Work.antt =====
-- Who does the work that a session begins.
use okx_cpp_api.Prelude.{
  ℕ, zero, suc, ◌<◌, ◌≡◌, refl, ◌⊎◌, inl, inr, Bool, true, false, Option, none, some, List, [], ◌∷◌,
  arith, Option-cases,
}
use mathlib.Core.Path.{subst}
use okx_cpp_api.Ws.Client.Thread.{
  Phase, no_thread, starting, flagged, looping, handling, returned, leaving, ended, Io, new_io,
  IoEvent, posted, run_called, stop_called, flag_set, checked, completed, handled, handler_threw,
  ran_out, cleared, cleared_again, call_run, begin_handler, return_from_run, io_effect, io_events,
}

-- `isRunning`, by the phase of the thread; only before the thread sets it, it may be either.
abbrev FlagOf : Phase → Bool → Type 0
FlagOf no_thread b = b ≡ false
FlagOf starting b = Unit
FlagOf leaving b = b ≡ false
FlagOf ended b = b ≡ false
FlagOf _ b = b ≡ true

abbrev IsFlagged : Io → Type 0
IsFlagged io = FlagOf io.phase io.is_running

abbrev FlaggedAfter : Option Io → Type 0
FlaggedAfter none = Unit
FlaggedAfter (some io) = IsFlagged io

-- What happens in one phase only.
abbrev InPhase : Phase → IoEvent → Type 0
InPhase phase e =
    (work : ℕ) (stopped running : Bool)
    → FlagOf phase running
    → FlaggedAfter (
        io_effect e
          (record { work = work; stopped = stopped; is_running = running; phase = phase }))

run_called-IsFlagged : (phase : Phase) → InPhase phase run_called
unfolding io_effect call_run
run_called-IsFlagged phase work stopped true f = f
run_called-IsFlagged no_thread work stopped false f = tt
run_called-IsFlagged leaving work stopped false f = tt
run_called-IsFlagged ended work stopped false f = tt
run_called-IsFlagged _ work stopped false f = tt

completed-IsFlagged : (phase : Phase) → InPhase phase completed
unfolding io_effect begin_handler
completed-IsFlagged looping work true running f = tt
completed-IsFlagged looping zero false running f = tt
completed-IsFlagged looping (suc others) false running f = f
completed-IsFlagged _ work stopped running f = tt

ran_out-IsFlagged : (phase : Phase) → InPhase phase ran_out
unfolding io_effect return_from_run
ran_out-IsFlagged looping work true running f = f
ran_out-IsFlagged looping zero false running f = f
ran_out-IsFlagged looping (suc others) false running f = tt
ran_out-IsFlagged _ work stopped running f = tt

io_effect-IsFlagged : (e : IoEvent) (phase : Phase) → InPhase phase e
unfolding io_effect
io_effect-IsFlagged posted phase work stopped running f = f
io_effect-IsFlagged stop_called phase work stopped running f = f
io_effect-IsFlagged run_called phase work stopped running f =
    run_called-IsFlagged phase work stopped running f
io_effect-IsFlagged completed phase work stopped running f =
    completed-IsFlagged phase work stopped running f
io_effect-IsFlagged ran_out phase work stopped running f =
    ran_out-IsFlagged phase work stopped running f
io_effect-IsFlagged flag_set starting work stopped running f = refl
io_effect-IsFlagged flag_set _ work stopped running f = tt
io_effect-IsFlagged checked flagged work stopped running f = f
io_effect-IsFlagged checked _ work stopped running f = tt
io_effect-IsFlagged (handled new) handling work stopped running f = f
io_effect-IsFlagged (handled new) _ work stopped running f = tt
io_effect-IsFlagged (handler_threw new) phase work stopped running f = threw phase
  where
    threw :
        (phase : Phase)
        → FlaggedAfter (
            io_effect
              (handler_threw new)
              (record { work = work; stopped = stopped; is_running = running; phase = phase }))
    threw handling = tt
    threw _ = tt
io_effect-IsFlagged cleared returned work stopped running f = refl
io_effect-IsFlagged cleared _ work stopped running f = tt
io_effect-IsFlagged cleared_again leaving work stopped running f = refl
io_effect-IsFlagged cleared_again _ work stopped running f = tt

io_events-IsFlagged : (es : List IoEvent) (io : Io) → IsFlagged io → FlaggedAfter (io_events io es)
unfolding io_events
io_events-IsFlagged [] io f = f
io_events-IsFlagged (e ∷ es) io f =
    let kept = io_effect-IsFlagged e io.phase io.work io.stopped io.is_running f in
    elim (Option-cases (io_effect e io)) [
      | inl y ↦ rw (io_events, y) tt
      | inr (io', y) ↦ rw (io_events, y) (io_events-IsFlagged es io' (subst FlaggedAfter y kept))
    ]

-- What the thread does.
abbrev pub IsOwn : IoEvent → Type 0
IsOwn posted = ⊥
IsOwn run_called = ⊥
IsOwn stop_called = ⊥
IsOwn _ = Unit

-- There is work, and nothing happens to it before the next call of `run`.
abbrev pub IsStalled : Io → Type 0
IsStalled io = (0 < io.work) × ((e : IoEvent) → IsOwn e → io_effect e io ≡ none)

ended-none :
    (work : ℕ) (stopped running : Bool) (e : IoEvent)
    → IsOwn e
    → io_effect e (record { work = work; stopped = stopped; is_running = running; phase = ended })
      ≡ none
unfolding io_effect
ended-none work stopped running posted own = elim own [ ]
ended-none work stopped running run_called own = elim own [ ]
ended-none work stopped running stop_called own = elim own [ ]
ended-none work stopped running (handled new) own = refl
ended-none work stopped running (handler_threw new) own = refl
ended-none work stopped running _ own = refl

-- A thread that goes to the context, or is at it.
pub at_work : Phase → Bool
at_work starting = true
at_work flagged = true
at_work looping = true
at_work handling = true
at_work _ = false

-- What a session that begins and then calls `run` finds: a thread at work; or one that is past
-- `ioContext.run()`, so that none is started and the work stalls; or a new thread that has not set the flag
-- yet, which `run` waits for.
abbrev pub Taken : Io → Type 0
Taken io =
    ((io' : Io) × (io_events io (posted ∷ run_called ∷ []) ≡ some io')
      × (io'.work ≡ suc (io.work))
      × (at_work io'.phase ≡ true))
    ⊎ ((io.phase ≡ returned)
        × (late : Io) × (io_events io (posted ∷ run_called ∷ cleared ∷ cleared_again ∷ [])
            ≡ some late)
        × IsStalled late)
    ⊎ ((io.phase ≡ starting)
        × (io.is_running ≡ false)
        × (io_events io (posted ∷ run_called ∷ []) ≡ none))

each_phase-Taken :
    (work : ℕ) (stopped running : Bool) (phase : Phase)
    → FlagOf phase running
    → Taken (record { work = work; stopped = stopped; is_running = running; phase = phase })
unfolding io_events io_effect call_run at_work
each_phase-Taken work stopped running no_thread f = rw f (inl (_, refl, refl, refl))
each_phase-Taken work stopped true starting f = inl (_, refl, refl, refl)
each_phase-Taken work stopped false starting f = inr (inr (refl, refl, refl))
each_phase-Taken work stopped running flagged f = rw f (inl (_, refl, refl, refl))
each_phase-Taken work stopped running looping f = rw f (inl (_, refl, refl, refl))
each_phase-Taken work stopped running handling f = rw f (inl (_, refl, refl, refl))
each_phase-Taken work stopped running leaving f = rw f (inl (_, refl, refl, refl))
each_phase-Taken work stopped running ended f = rw f (inl (_, refl, refl, refl))
each_phase-Taken work stopped running returned f =
    rw f (inr (inl (refl, _, refl, (omega arith, ended-none (suc work) stopped false))))

-- Whatever has happened before, the work of a session that begins and then calls `run` is left to a
-- thread that is at work or goes to it, but for two cases. When the thread is past `ioContext.run()` and has
-- not cleared the flag yet, `run` starts no thread, and once the flag is cleared twice the work stalls until
-- `run` is called again. When the thread has not set the flag yet that the thread before it has cleared
-- behind the `run` that started it, `run` does not return, but waits for this thread.
pub io_events-Taken : (es : List IoEvent) (io : Io) → io_events new_io es ≡ some io → Taken io
unfolding new_io
io_events-Taken es io y =
    each_phase-Taken io.work io.stopped io.is_running io.phase
      (subst FlaggedAfter y (io_events-IsFlagged es new_io refl))
