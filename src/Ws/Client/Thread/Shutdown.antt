-- ===== src/Ws/Client/Thread/Shutdown.antt =====
-- How the thread ends once the destructor has stopped its context.
use okx_cpp_api.Prelude.{
  ℕ, suc, ◌+◌, ◌-◌, ◌≤◌, ◌≡◌, refl, sym, ap, ◌∙◌, inl, inr, Bool, true, false, Option, none, some,
  List, [], ◌∷◌, arith, Option-cases, length, All,
}
use mathlib.Core.Path.{subst}
use okx_cpp_api.Ws.Client.Thread.{
  Phase, no_thread, starting, flagged, looping, handling, returned, leaving, ended, Io, IoEvent,
  posted, run_called, stop_called, flag_set, checked, completed, handled, handler_threw, ran_out,
  cleared, cleared_again, begin_handler, return_from_run, io_effect, io_events,
}

-- How many events of the thread are left until the join of the destructor returns, when no test of
-- `stopped()` is ahead.
pub steps_left : Phase → ℕ
steps_left handling = 4
steps_left looping = 3
steps_left returned = 2
steps_left leaving = 1
steps_left _ = 0

-- Whether no test of `stopped()` is ahead of the thread.
unfoldable pub is_past : Phase → Bool
is_past starting = false
is_past flagged = false
is_past _ = true

-- What the thread does, but for a throw.
abbrev pub IsStep : IoEvent → Type 0
IsStep posted = ⊥
IsStep run_called = ⊥
IsStep stop_called = ⊥
IsStep (handler_threw new) = ⊥
IsStep _ = Unit

abbrev pub stopped_io : ℕ → Bool → Phase → Io
stopped_io work running phase = record {
  work = work;
  stopped = true;
  is_running = running;
  phase = phase;
}

-- A step of the thread on a stopped context keeps it stopped, and comes one nearer to the end.
abbrev Nears : Phase → Option Io → Type 0
Nears phase none = Unit
Nears phase (some io) =
    (io.stopped ≡ true) × (is_past io.phase ≡ true) × (suc (steps_left io.phase) ≡ steps_left phase)

step-Nears :
    (e : IoEvent) (work : ℕ) (running : Bool) (phase : Phase)
    → IsStep e
    → is_past phase ≡ true
    → Nears phase (io_effect e (stopped_io work running phase))
unfolding io_effect begin_handler return_from_run steps_left is_past
step-Nears flag_set work running starting s p = cc
step-Nears flag_set work running _ s p = tt
step-Nears checked work running flagged s p = cc
step-Nears checked work running _ s p = tt
step-Nears completed work running looping s p = tt
step-Nears completed work running _ s p = tt
step-Nears (handled new) work running handling s p = (refl, refl, refl)
step-Nears (handled new) work running _ s p = tt
step-Nears ran_out work running looping s p = (refl, refl, refl)
step-Nears ran_out work running _ s p = tt
step-Nears cleared work running returned s p = (refl, refl, refl)
step-Nears cleared work running _ s p = tt
step-Nears cleared_again work running leaving s p = (refl, refl, refl)
step-Nears cleared_again work running _ s p = tt
step-Nears posted work running phase s p = elim s [ ]
step-Nears run_called work running phase s p = elim s [ ]
step-Nears stop_called work running phase s p = elim s [ ]
step-Nears (handler_threw new) work running phase s p = elim s [ ]

-- Steps of the thread after which the join returns.
abbrev pub Finishes : Io → ℕ → Type 0
Finishes io n =
    (es : List IoEvent) × (end : Io) × All IsStep es
    × (io_events io es ≡ some end)
    × (is_past end.phase ≡ true)
    × (steps_left end.phase ≡ 0)
    × (length es ≡ n)

Finishes-at :
    (work : ℕ) (running : Bool) (phase : Phase)
    → is_past phase ≡ true
    → Finishes (stopped_io work running phase) (steps_left phase)
unfolding io_events io_effect return_from_run steps_left is_past
Finishes-at work running handling p = (
  handled 0 ∷ ran_out ∷ cleared ∷ cleared_again ∷ [],
  _,
  (tt, (tt, (tt, (tt, tt)))),
  refl,
  refl,
  refl,
  refl,
)
Finishes-at work running looping p =
    (ran_out ∷ cleared ∷ cleared_again ∷ [], _, (tt, (tt, (tt, tt))), refl, refl, refl, refl)
Finishes-at work running returned p =
    (cleared ∷ cleared_again ∷ [], _, (tt, (tt, tt)), refl, refl, refl, refl)
Finishes-at work running leaving p = (cleared_again ∷ [], _, (tt, tt), refl, refl, refl, refl)
Finishes-at work running no_thread p = ([], _, tt, refl, refl, refl, refl)
Finishes-at work running ended p = ([], _, tt, refl, refl, refl, refl)
Finishes-at work running starting p = cc
Finishes-at work running flagged p = cc

Finishes-stopped :
    (io : Io) → io.stopped ≡ true → is_past io.phase ≡ true → Finishes io (steps_left io.phase)
Finishes-stopped io t p =
    subst (λ b. Finishes (record io { stopped = b }) (steps_left io.phase)) (sym t)
      (Finishes-at io.work io.is_running io.phase p)

Nears-stopped :
    (e : IoEvent) (io : Io)
    → io.stopped ≡ true
    → is_past io.phase ≡ true
    → IsStep e
    → Nears io.phase (io_effect e io)
Nears-stopped e io t p s =
    subst (λ b. Nears io.phase (io_effect e (record io { stopped = b }))) (sym t)
      (step-Nears e io.work io.is_running io.phase s p)

steps-counted :
    (es : List IoEvent) (io io' : Io)
    → io.stopped ≡ true
    → is_past io.phase ≡ true
    → All IsStep es
    → io_events io es ≡ some io'
    → (io'.stopped ≡ true)
      × (is_past io'.phase ≡ true)
      × (length es + steps_left io'.phase ≡ steps_left io.phase)
unfolding io_events
steps-counted [] io io' t p s y =
    let same : io ≡ io' = cc in
    (
      ap (λ x. x.stopped) (sym same) ∙ t,
      ap (λ x. is_past x.phase) (sym same) ∙ p,
      omega (arith, ap (λ x. steps_left x.phase) same),
    )
steps-counted (e ∷ es) io io' t p (s, ss) y = elim (Option-cases (io_effect e io)) [
  | inl n ↦ cc (rw (io_events, n) at y)
  | inr (next, n) ↦
      let (stopped, past, near) = subst (Nears io.phase) n (Nears-stopped e io t p s) in
      let (t', past', count) = steps-counted es next io' stopped past ss (rw (io_events, n) at y) in
      (t', past', omega (arith, near, count))
]

steps_left-le : (phase : Phase) → steps_left phase ≤ 4
unfolding steps_left
steps_left-le no_thread = omega arith
steps_left-le starting = omega arith
steps_left-le flagged = omega arith
steps_left-le looping = omega arith
steps_left-le handling = omega arith
steps_left-le returned = omega arith
steps_left-le leaving = omega arith
steps_left-le ended = omega arith

-- Once the destructor has stopped the context, when the thread is not ahead of the test of `stopped()`, the
-- thread ends if no handler throws: whatever steps it has taken since, there are some after which the join
-- returns, and these and those are four at most.
pub stop-Ends :
    (io stopped io' : Io) (es : List IoEvent)
    → is_past io.phase ≡ true
    → io_effect stop_called io ≡ some stopped
    → All IsStep es
    → io_events stopped es ≡ some io'
    → Finishes io' (steps_left stopped.phase - length es)
      × (length es ≤ steps_left stopped.phase)
      × (steps_left stopped.phase ≤ 4)
unfolding io_effect
stop-Ends io stopped io' es p y s z =
    let same : record io { stopped = true } ≡ stopped = cc in
    let (t', past', count) =
      steps-counted es stopped io' (ap (λ x. x.stopped) (sym same))
        (ap (λ x. is_past x.phase) (sym same) ∙ p) s z in
    (
      subst (Finishes io') (omega (arith, count)) (Finishes-stopped io' t' past'),
      omega (arith, count),
      steps_left-le stopped.phase,
    )

-- A thread in a context that is not stopped and has work left neither returns from `run` nor ends at its
-- next step.
abbrev pub GoesOn : Io → Type 0
GoesOn io =
    (io.stopped ≡ false)
    × (io.phase ≡ looping)
    × (io_effect ran_out io ≡ none)
    × (io_effect cleared io ≡ none)
    × (io_effect cleared_again io ≡ none)
