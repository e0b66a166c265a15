-- ===== src/Connector.antt =====
-- src/okx_futures_exchange_connector.cpp: the funding rates of all swaps, fetched by tasks that a loop
-- polls, and the rates that a worker thread leaves for later calls.
pub mod Polling
pub mod Rates
pub mod Pace
pub mod Worker
pub mod Factory
mod Examples
use okx_cpp_api.Prelude.{
  ◌/◌, ℕ, zero, suc, ◌+◌, ◌-◌, ◌*◌, Bool, true, false, Option, none, some, List, [], ◌∷◌, ◌++◌, ltb,
  if◌then◌else◌, length, Bytes, codes,
}
use okx_cpp_api.Prelude.Int.{ℤ}
use okx_cpp_api.Result.{Result, ok, err, runtime_error, ◌>>=◌}
use okx_cpp_api.Http.{Network, Signer}
use okx_cpp_api.Models.{FundingRate}
use okx_cpp_api.Models.Instruments.{Instrument}
use okx_cpp_api.Rest.{Reading, RestClient, get_last_funding_rate, get_system_time, get_instruments}

-- `stonky::FundingRate`, the three members that the connector sets; `F` is `double`.
pub record Rate (F : Type 0) : Type 0 where
  pub symbol : Bytes
  pub funding_rate : F
  pub next_funding_time : ℤ

-- A `std::future`: its task runs, and its result is there once so many looks were in vain, or the
-- result was taken.
pub data Future (A : Type 0) : Type 0 where
  running : ℕ → Result A → Future A
  taken : Future A

-- What `isReady`, which is not in this repository, does with a future whose result was taken, and what
-- `get` does with it.
module _ {A : Type 0} (is_ready_taken : Result Bool) (get_taken : Result A) where
  -- The body of the inner loop.
  pub poll_one : Future A → List A → Result (Future A × List A)
  poll_one (running zero outcome) ready = outcome >>= (λ a. ok (taken, ready ++ (a ∷ [])))
  poll_one (running (suc looks) outcome) ready = ok (running looks outcome, ready)
  poll_one taken ready = is_ready_taken >>= (λ is_ready.
      if is_ready then (get_taken >>= (λ a. ok (taken, ready ++ (a ∷ [])))) else ok (taken, ready))

  -- The inner loop, over all futures.
  pub poll_all : List (Future A) → List A → Result (List (Future A) × List A)
  unfolding poll_one
  poll_all [] ready = ok ([], ready)
  poll_all (f ∷ fs) ready =
      poll_one f ready >>= (λ one. poll_all fs one.1 >>= (λ rest. ok (one.0 ∷ rest.0, rest.1)))

  -- The outer loop; it is `none` when the fuel does not suffice.
  pub poll : ℕ → List (Future A) → List A → Option (Result (List A))
  unfolding poll_all
  poll zero futures ready = none
  poll (suc fuel) futures ready = elim (poll_all futures ready) [
    | err e ↦ some (err e)
    | ok (futures', ready') ↦ elim (ltb (length ready') (length futures')) [
      | true ↦ poll fuel futures' ready'
      | false ↦ some (ok ready')
    ]
  ]

-- `exchangeId` and `version`.
abbrev pub exchange_id : Bytes
exchange_id = codes "MEXCFutures"

abbrev pub version_text : Bytes
version_text = codes "1.0.5"

-- `placeOrder`, `getTickerPrice` and `getAccountBalance`, and the other calls that are not there yet.
abbrev pub unimplemented : {A : Type 0} → Bytes → Result A
unimplemented name =
    err (runtime_error (codes "Unimplemented: OKXFuturesExchangeConnector::" ++ name))

-- How long a task takes, in nanoseconds, when the request took `elapsed`: it sleeps for the rest of
-- 345 ms, in whole milliseconds. The products of doubles are exact here.
pub task_time : ℕ → ℕ
task_time elapsed =
    if ltb elapsed 345000000 then elapsed + 1000000 * ((345000000 - elapsed) / 1000000) else elapsed

-- A task: how long its request takes, whether the request throws, and how long the permit is idle after
-- the task has given it back.
pub record Job : Type 0 where
  pub elapsed : ℕ
  pub throws : Bool
  pub idle : ℕ

-- How long a task keeps its permit: an exception of the request leaves it before the sleep.
pub held_time : Job → ℕ
unfolding task_time
held_time job = if job.throws then job.elapsed else task_time job.elapsed

-- When the tasks that have the same permit of the semaphore, one after another, begin their request:
-- the first at `t`.
pub request_times : ℕ → List Job → List ℕ
unfolding held_time
request_times t [] = []
request_times t (job ∷ rest) = t ∷ request_times (t + held_time job + job.idle) rest

module _ (version : Bytes) (signer : Signer) (stoi : Bytes → Result ℤ) {J D F : Type 0}
    (convert_to_double : D → F) (read_rate : Bytes → Result (Reading (FundingRate J D))) where
  -- `getFundingRate`, and what a task of `getFundingRates` gives.
  pub get_funding_rate : {I : Type 0} → Network → RestClient I → Bytes → Bytes → Result (Rate F)
  get_funding_rate network client ts symbol =
      get_last_funding_rate network version signer stoi client ts read_rate symbol >>= (λ fr.
        ok (record {
          symbol = fr.inst_id;
          funding_rate = convert_to_double fr.funding_rate;
          next_funding_time = fr.next_funding_time;
        }))

  -- `getServerTime`.
  pub get_server_time :
      {I : Type 0} → Network → RestClient I → Bytes → (Bytes → Result (Reading ℤ)) → Result ℤ
  get_server_time network client ts read_time =
      get_system_time network version signer stoi client ts read_time

  -- The tasks, one for each instrument; `looks`, `ts` and `network` say when the n-th of them is done,
  -- at what time it asks, and what it meets.
  pub tasks :
      (ℕ → ℕ)
      → (ℕ → Bytes)
      → (ℕ → Network)
      → RestClient (Instrument D)
      → ℕ
      → List (Instrument D)
      → List (Future (Rate F))
  unfolding get_funding_rate
  tasks looks ts network client n [] = []
  tasks looks ts network client n (i ∷ is) =
      running (looks n) (get_funding_rate (network n) client (ts n) i.inst_id)
      ∷ tasks looks ts network client (suc n) is

  module _ (is_ready_taken : Result Bool) (get_taken : Result (Rate F))
      (read_instruments : Bytes → Result (Reading (List (Instrument D)))) (looks : ℕ → ℕ)
      (ts : ℕ → Bytes) (network : ℕ → Network) where
    -- `P::getFundingRates` from the tasks on.
    pub fetch_rates :
        ℕ
        → RestClient (Instrument D) × Result (List (Instrument D))
        → RestClient (Instrument D) × Option (Result (List (Rate F)))
    unfolding poll tasks
    fetch_rates fuel (client, err e) = (client, some (err e))
    fetch_rates fuel (client, ok instruments) = (
      client,
      poll is_ready_taken get_taken fuel (tasks looks ts network client 1 instruments) [],
    )

    -- `P::getFundingRates`: the instruments of `RESTClient::getInstruments` at `ts 0`, then their tasks.
    pub fetch_funding_rates :
        RestClient (Instrument D) → ℕ → RestClient (Instrument D) × Option (Result (List (Rate F)))
    unfolding fetch_rates
    fetch_funding_rates client fuel = fetch_rates fuel (
        get_instruments (network 0) version signer stoi client (ts 0) read_instruments
          (codes "SWAP") false)
