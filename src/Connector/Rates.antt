-- ===== src/Connector/Rates.antt =====
-- The funding rates of all swaps: `P::getFundingRates` as a whole.
use okx_cpp_api.Prelude.{
  subst, ℕ, suc, ◌≤◌, ◌≡◌, refl, ap, ◌∙◌, false, some, List, [], ◌∷◌, append-nil, arith, length,
  All, Bytes, codes,
}
use okx_cpp_api.Result.{Result, ok}
use okx_cpp_api.Http.{Network, Signer}
use okx_cpp_api.Models.{FundingRate}
use okx_cpp_api.Models.Instruments.{Instrument}
use okx_cpp_api.Rest.{Reading, RestClient, get_instruments}
use okx_cpp_api.Connector.{
  ℤ, Future, Rate, get_funding_rate, tasks, fetch_rates, fetch_funding_rates,
}
use okx_cpp_api.Connector.Polling.{IsWithin, IsEnd, outcome_of, outcomes, poll-Ends}

module _ (version : Bytes) (signer : Signer) (stoi : Bytes → Result ℤ) {J D F : Type 0}
    (convert_to_double : D → F) (read_rate : Bytes → Result (Reading (FundingRate J D)))
    (looks : ℕ → ℕ) (ts : ℕ → Bytes) (network : ℕ → Network) where
  -- What `getFundingRate` gives for each instrument in turn, at the times and over the network of its task.
  pub answers : RestClient (Instrument D) → ℕ → List (Instrument D) → List (Result (Rate F))
  answers client n [] = []
  answers client n (i ∷ is) =
      get_funding_rate version signer stoi convert_to_double read_rate (network n) client (ts n)
        i.inst_id
      ∷ answers client (suc n) is

  all_tasks : RestClient (Instrument D) → ℕ → List (Instrument D) → List (Future (Rate F))
  unfolding tasks
  all_tasks = tasks version signer stoi convert_to_double read_rate looks ts network

  tasks-outcomes :
      (client : RestClient (Instrument D)) (n : ℕ) (is : List (Instrument D))
      → outcomes (all_tasks client n is) ≡ answers client n is
  unfolding all_tasks answers outcomes outcome_of tasks
  tasks-outcomes client n [] = refl
  tasks-outcomes client n (i ∷ is) =
      ap
        (λ rs.
          get_funding_rate version signer stoi convert_to_double read_rate (network n) client (ts n)
            i.inst_id
          ∷ rs)
        (tasks-outcomes client (suc n) is)

  tasks-length :
      (client : RestClient (Instrument D)) (n : ℕ) (is : List (Instrument D))
      → length (outcomes (all_tasks client n is)) ≡ length (all_tasks client n is)
  unfolding all_tasks outcomes outcome_of tasks
  tasks-length client n [] = refl
  tasks-length client n (i ∷ is) = ap suc (tasks-length client (suc n) is)

  tasks-IsWithin :
      (most : ℕ) (client : RestClient (Instrument D)) (n : ℕ) (is : List (Instrument D))
      → ((k : ℕ) → looks k ≤ most)
      → All (IsWithin (suc most)) (all_tasks client n is)
  unfolding all_tasks tasks
  tasks-IsWithin most client n [] w = tt
  tasks-IsWithin most client n (i ∷ is) w =
      (omega (arith, w n), tasks-IsWithin most client (suc n) is w)

  -- When the instruments are there, `isReady` says of a future whose result was taken that it is not
  -- ready, and every task is done after at most `most` looks, the loop ends after at most `most + 1`
  -- passes. It gives what `getFundingRate` gives for each instrument, each once, when no task throws, and
  -- otherwise throws what one of the tasks throws.
  pub fetch_funding_rates-ends :
      (get_taken : Result (Rate F))
      (read_instruments : Bytes → Result (Reading (List (Instrument D))))
      (client client' : RestClient (Instrument D)) (instruments : List (Instrument D)) (most : ℕ)
      → get_instruments
          (network 0)
          version
          signer
          stoi
          client
          (ts 0)
          read_instruments
          (codes "SWAP")
          false
        ≡ (client', ok instruments)
      → ((k : ℕ) → looks k ≤ most)
      → (r : Result (List (Rate F))) × (fetch_funding_rates version signer stoi convert_to_double
            read_rate
            (ok false)
            get_taken
            read_instruments
            looks
            ts
            network
            client
            (suc most)
          ≡ (client', some r))
        × IsEnd get_taken (answers client' 1 instruments) r
  unfolding fetch_funding_rates fetch_rates all_tasks
  fetch_funding_rates-ends get_taken read_instruments client client' instruments most y w =
      let (r, e, h) =
        poll-Ends get_taken most (all_tasks client' 1 instruments) []
          (tasks-IsWithin most client' 1 instruments w)
          (ground (arith, tasks-length client' 1 instruments)) in
      (
        r,
        ap
              (fetch_rates version signer stoi convert_to_double read_rate (ok false) get_taken
                read_instruments looks ts network (suc most))
              y
            ∙ ap (λ x. (client', x)) e,
        subst (λ xs. IsEnd get_taken xs r)
            (append-nil (outcomes (all_tasks client' 1 instruments))
              ∙ tasks-outcomes client' 1 instruments)
            h,
      )
