-- ===== src/Connector/Worker/Latest.antt =====
-- What `getFundingRates` gives, after whatever has happened.
use okx_cpp_api.Prelude.{
  subst, ◌≡◌, refl, ap, ◌∙◌, inl, inr, Bool, true, false, Option, some, List, [], ◌∷◌, Option-cases,
}
use okx_cpp_api.Result.{ok, err}
use okx_cpp_api.Connector.Worker.{
  none, Worker, no_thread, fetching, stored, leaving, Connector, Process, alive, terminated,
  undefined_behaviour, Event, asked, logged_in, fetched, cleared, new_connector, join_worker,
  get_funding_rates, destroy_connector, login, store_rates, event_effect, happen,
}

-- `isRunning` says whether the thread has something to do.
abbrev is_busy : Worker → Bool
is_busy fetching = true
is_busy stored = true
is_busy _ = false

module _ {C R : Type 0} where
  -- The list of the last fetch that ended, after `rates`.
  pub last_fetched : List R → List (Event C R) → List R
  last_fetched rates [] = rates
  last_fetched rates (fetched client (ok new) ∷ es) = last_fetched new es
  last_fetched rates (_ ∷ es) = last_fetched rates es

  abbrev IsValid : Connector C R → Type 0
  IsValid c = c.is_running ≡ is_busy (c.worker_thread)

  -- A call gives the rates there are, at once, and then a thread is at work.
  abbrev Answers : Connector C R → Type 0
  Answers c =
      (c' : Connector C R) × (get_funding_rates c ≡ some (c.funding_rates, c'))
      × IsValid c'
      × (c'.is_running ≡ true)
      × (c'.funding_rates ≡ c.funding_rates)

  answers_at :
      (client : C) (rates : List R) (worker : Worker) (running : Bool)
      → running ≡ is_busy worker
      → Answers (record {
        rest_client = client;
        funding_rates = rates;
        worker_thread = worker;
        is_running = running;
      })
  unfolding get_funding_rates join_worker
  answers_at client rates no_thread running v = rw v (_, refl, refl, refl, refl)
  answers_at client rates fetching running v = rw v (_, refl, refl, refl, refl)
  answers_at client rates stored running v = rw v (_, refl, refl, refl, refl)
  answers_at client rates leaving running v = rw v (_, refl, refl, refl, refl)

  answers : (c : Connector C R) → IsValid c → Answers c
  answers c v = answers_at c.rest_client c.funding_rates c.worker_thread c.is_running v

  -- The destructor waits for a thread that is at work, and for no other; it leaves no thread.
  abbrev EndsWith : Bool → Connector C R → Type 0
  EndsWith true c = destroy_connector c ≡ none
  EndsWith false c =
      (d : Connector (Option C) R) × (destroy_connector c ≡ some d) × (d.worker_thread ≡ no_thread)

  abbrev pub IsDestroyed : Connector C R → Type 0
  IsDestroyed c = EndsWith c.is_running c

  IsDestroyed-at :
      (client : C) (rates : List R) (worker : Worker) (running : Bool)
      → running ≡ is_busy worker
      → IsDestroyed (record {
        rest_client = client;
        funding_rates = rates;
        worker_thread = worker;
        is_running = running;
      })
  unfolding destroy_connector join_worker
  IsDestroyed-at client rates no_thread running v = rw v (_, refl, refl)
  IsDestroyed-at client rates fetching running v = rw v refl
  IsDestroyed-at client rates stored running v = rw v refl
  IsDestroyed-at client rates leaving running v = rw v (_, refl, refl)

  -- A process that lives on is valid and holds `rates`.
  abbrev Holds : List R → Option (Process C R) → Type 0
  Holds rates (some (alive c)) = IsValid c × (c.funding_rates ≡ rates)
  Holds rates _ = Unit

  effect-Holds_at :
      (e : Event C R) (client : C) (rates : List R) (worker : Worker) (running : Bool)
      → running ≡ is_busy worker
      → Holds (last_fetched rates (e ∷ [])) (
          event_effect e (record {
            rest_client = client;
            funding_rates = rates;
            worker_thread = worker;
            is_running = running;
          }))
  unfolding event_effect last_fetched get_funding_rates join_worker login store_rates
  effect-Holds_at asked client rates no_thread running v = rw v (refl, refl)
  effect-Holds_at asked client rates fetching running v = rw v (refl, refl)
  effect-Holds_at asked client rates stored running v = rw v (refl, refl)
  effect-Holds_at asked client rates leaving running v = rw v (refl, refl)
  effect-Holds_at (logged_in new) client rates fetching running v = tt
  effect-Holds_at (logged_in new) client rates no_thread running v = (v, refl)
  effect-Holds_at (logged_in new) client rates stored running v = (v, refl)
  effect-Holds_at (logged_in new) client rates leaving running v = (v, refl)
  effect-Holds_at (fetched new (err x)) client rates fetching running v = tt
  effect-Holds_at (fetched new (ok out)) client rates fetching running v = (v, refl)
  effect-Holds_at (fetched new (err x)) client rates no_thread running v = tt
  effect-Holds_at (fetched new (err x)) client rates stored running v = tt
  effect-Holds_at (fetched new (err x)) client rates leaving running v = tt
  effect-Holds_at (fetched new (ok out)) client rates no_thread running v = tt
  effect-Holds_at (fetched new (ok out)) client rates stored running v = tt
  effect-Holds_at (fetched new (ok out)) client rates leaving running v = tt
  effect-Holds_at cleared client rates stored running v = (refl, refl)
  effect-Holds_at cleared client rates no_thread running v = tt
  effect-Holds_at cleared client rates fetching running v = tt
  effect-Holds_at cleared client rates leaving running v = tt

  last_fetched_cons :
      (e : Event C R) (es : List (Event C R)) (rates : List R)
      → last_fetched rates (e ∷ es) ≡ last_fetched (last_fetched rates (e ∷ [])) es
  unfolding last_fetched
  last_fetched_cons asked es rates = refl
  last_fetched_cons (logged_in new) es rates = refl
  last_fetched_cons (fetched new (err x)) es rates = refl
  last_fetched_cons (fetched new (ok out)) es rates = refl
  last_fetched_cons cleared es rates = refl

  happen-Holds :
      (es : List (Event C R)) (rates : List R) (p : Process C R)
      → Holds rates (some p)
      → Holds (last_fetched rates es) (happen p es)
  unfolding happen last_fetched
  happen-Holds [] rates p h = h
  happen-Holds (e ∷ es) rates terminated h = tt
  happen-Holds (e ∷ es) rates undefined_behaviour h = tt
  happen-Holds (e ∷ es) rates (alive c) (v, k) =
      let kept = effect-Holds_at e c.rest_client c.funding_rates c.worker_thread c.is_running v in
      elim (Option-cases (event_effect e c)) [
        | inl y ↦ rw (happen, y) tt
        | inr (p, y) ↦ rw (last_fetched_cons e es rates) (
            rw (happen, y)
              (happen-Holds es (last_fetched rates (e ∷ [])) p (
                subst (λ r. Holds (last_fetched r (e ∷ [])) (some p)) k
                  (subst (λ o. Holds (last_fetched (c.funding_rates) (e ∷ [])) o) y kept))))
      ]

  -- Whatever calls were made and whatever the thread did, while no fetch has thrown and no login came
  -- upon a fetch: a call of `getFundingRates` never has to wait for a thread that is still at work. It gives
  -- the list of the last fetch that has ended, or the empty list, and after it a thread is at work.
  -- The destructor waits for the thread just while `isRunning` is set, and no thread is left after it.
  pub get_funding_rates-latest :
      (client : C) (es : List (Event C R)) (c : Connector C R)
      → happen (alive (new_connector client)) es ≡ some (alive c)
      → (c' : Connector C R) × (get_funding_rates c ≡ some (last_fetched [] es, c'))
        × (c'.is_running ≡ true)
        × IsDestroyed c
  unfolding new_connector
  get_funding_rates-latest client es c y =
      let (v, k) =
        subst (Holds (last_fetched [] es)) y
          (happen-Holds es [] (alive (new_connector client)) (refl, refl)) in
      let (c', e, v', b, _) = answers c v in
      (
        c',
        e ∙ ap (λ r. some (r, c')) k,
        b,
        IsDestroyed-at c.rest_client c.funding_rates c.worker_thread c.is_running v,
      )
