-- ===== src/Connector/Worker.antt =====
-- The rates that a worker thread leaves: `getFundingRates`, `login` and the thread of
-- src/okx_futures_exchange_connector.cpp, as steps that are each taken at once.
pub mod Latest
mod Examples
use okx_cpp_api.Prelude.{Bool, true, false, Option, none, some, List, [], ◌∷◌, if◌then◌else◌}
use okx_cpp_api.Result.{Result, ok, err}

-- Where `workerThread` is: no thread, at the request, past the assignment, past the last statement.
pub data Worker : Type 0 where
  no_thread fetching stored leaving : Worker

-- `OKXFuturesExchangeConnector::P`; `C` is the REST client, `R` a funding rate.
pub record Connector (C R : Type 0) : Type 0 where
  pub rest_client : C
  pub funding_rates : List R
  pub worker_thread : Worker
  pub is_running : Bool

-- The process: a throw that leaves the thread ends it, and a client that is replaced while the thread
-- uses it is undefined behaviour.
pub data Process (C R : Type 0) : Type 0 where
  alive : Connector C R → Process C R
  terminated undefined_behaviour : Process C R

-- What happens: a call of `getFundingRates` or `login`, or a step of the thread. `fetched` is the end of
-- `P::getFundingRates`, with the client that it leaves.
pub data Event (C R : Type 0) : Type 0 where
  asked : Event C R
  logged_in : C → Event C R
  fetched : C → Result (List R) → Event C R
  cleared : Event C R

module _ {C R : Type 0} where
  -- The constructor.
  pub new_connector : C → Connector C R
  new_connector client = record {
    rest_client = client;
    funding_rates = [];
    worker_thread = no_thread;
    is_running = false;
  }

  -- `workerThread.join()` if there is a thread; `none` when the join has to wait for a thread that still
  -- fetches or has `isRunning` to clear.
  pub join_worker : Connector C R → Option (Connector C R)
  join_worker c = elim c.worker_thread [
    | no_thread ↦ some c
    | fetching ↦ none
    | stored ↦ none
    | leaving ↦ some (record c { worker_thread = no_thread })
  ]

  -- `getFundingRates`: what it gives, and the connector after it.
  pub get_funding_rates : Connector C R → Option (List R × Connector C R)
  unfolding join_worker
  get_funding_rates c =
      if c.is_running
      then some (c.funding_rates, c)
      else elim (join_worker (record c { is_running = true })) [
        | none ↦ none
        | some joined ↦ some (joined.funding_rates, record joined { worker_thread = fetching })
      ]

  -- The destructor, which joins the thread and destroys the client.
  pub destroy_connector : Connector C R → Option (Connector (Option C) R)
  unfolding join_worker
  destroy_connector c = elim (join_worker c) [
    | none ↦ none
    | some joined ↦ some (record {
      rest_client = none;
      funding_rates = joined.funding_rates;
      worker_thread = joined.worker_thread;
      is_running = joined.is_running;
    })
  ]

  -- `login`, with the client that its credentials make.
  pub login : C → Connector C R → Process C R
  login client c = elim c.worker_thread [
    | fetching ↦ undefined_behaviour
    | _ ↦ alive (record c { rest_client = client })
  ]

  -- `fundingRates = getFundingRates()`, in the thread.
  pub store_rates : C → Result (List R) → Connector C R → Process C R
  store_rates client (err e) c = terminated
  store_rates client (ok rates) c =
      alive (record c { rest_client = client; funding_rates = rates; worker_thread = stored })

  -- One event, where it can happen.
  pub event_effect : Event C R → Connector C R → Option (Process C R)
  unfolding get_funding_rates login store_rates
  event_effect asked c = elim (get_funding_rates c) [
    | none ↦ none
    | some (rates, c') ↦ some (alive c')
  ]
  event_effect (logged_in client) c = some (login client c)
  event_effect (fetched client r) c = elim c.worker_thread [
    | fetching ↦ some (store_rates client r c)
    | _ ↦ none
  ]
  event_effect cleared c = elim c.worker_thread [
    | stored ↦ some (alive (record c { is_running = false; worker_thread = leaving }))
    | _ ↦ none
  ]

  -- The events in their order, while the process is alive.
  pub happen : Process C R → List (Event C R) → Option (Process C R)
  unfolding event_effect
  happen p [] = some p
  happen (alive c) (e ∷ es) = elim (event_effect e c) [ none ↦ none | some p ↦ happen p es ]
  happen terminated (e ∷ es) = none
  happen undefined_behaviour (e ∷ es) = none
