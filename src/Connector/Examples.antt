-- ===== src/Connector/Examples.antt =====
-- Two swaps, one of which is asked for longer.
use okx_cpp_api.Prelude.{
  ℕ, ◌+◌, ◌≤◌, ◌≡◌, refl, false, some, List, [], ◌∷◌, arith, ◌==◌, if◌then◌else◌, Bytes, codes,
  bytes_eq,
}
use okx_cpp_api.Prelude.Int.{ℤ, pos}
use okx_cpp_api.Result.{Result, ok}
use okx_cpp_api.Http.{Signer, Network, http_get}
use okx_cpp_api.Models.{FundingRate, new_funding_rate}
use okx_cpp_api.Models.Instruments.{Instrument, new_instrument}
use okx_cpp_api.Rest.{
  RestClient, Reading, new_rest_client, set_instruments, check_response, handle_okx_response,
  get_and_read, get_instruments,
}
use okx_cpp_api.Connector.{
  true, Rate, Job, task_time, held_time, request_times, fetch_funding_rates,
}
use okx_cpp_api.Connector.Polling.{IsEnd}
use okx_cpp_api.Connector.Rates.{answers, fetch_funding_rates-ends}
use okx_cpp_api.Connector.Pace.{in_window, request_times-allowed}

abbrev no_signer : Signer
no_signer = record { sign = λ secret message. [] }

abbrev exchange : ℕ → Network
exchange n host req = ok (record { result_int = 200; body = codes "0" })

abbrev stoi : Bytes → Result ℤ
stoi s = if bytes_eq s (codes "0") then ok (pos 0) else ok (pos 1)

-- Decimals are numbers, and JSON is left out.
abbrev read_rate : Bytes → Result (Reading (FundingRate Unit ℕ))
read_rate body = ok (record { code = codes "0"; msg = []; value = new_funding_rate tt 5 })

abbrev swaps : List (Instrument ℕ)
swaps =
    record (new_instrument 0) { inst_id = codes "BTC" }
    ∷ record (new_instrument 0) { inst_id = codes "ETH" }
    ∷ []

abbrev read_swaps : Bytes → Result (Reading (List (Instrument ℕ)))
read_swaps body = ok (record { code = codes "0"; msg = []; value = swaps })

abbrev fresh : RestClient (Instrument ℕ)
fresh = new_rest_client [] [] []

-- The first swap is not done at the first look.
abbrev looks : ℕ → ℕ
looks n = if n == 1 then 1 else 0

abbrev no_time : ℕ → Bytes
no_time n = []

fetch_funding_rates-ends_example :
    (r : Result (List (Rate ℕ))) × (fetch_funding_rates [] no_signer stoi
        (λ d. d)
        read_rate
        (ok false)
        (ok (record { symbol = []; funding_rate = 0; next_funding_time = pos 0 }))
        read_swaps
        looks
        no_time
        exchange
        fresh
        2
      ≡ (set_instruments fresh swaps, some r))
    × IsEnd
        (ok (record { symbol = []; funding_rate = 0; next_funding_time = pos 0 }))
        (answers [] no_signer stoi
          (λ d. d)
          read_rate
          looks
          no_time
          exchange
          (set_instruments fresh swaps)
          1
          swaps)
        r
unfolding get_instruments new_rest_client get_and_read http_get check_response handle_okx_response
fetch_funding_rates-ends_example =
    fetch_funding_rates-ends [] no_signer stoi (λ d. d) read_rate looks no_time exchange
      (ok (record { symbol = []; funding_rate = 0; next_funding_time = pos 0 })) read_swaps fresh
      (set_instruments fresh swaps) swaps 1 refl (λ k. ground arith)

-- Requests of 100 ms, and one of 400 ms.
abbrev job_of : ℕ → ℕ → Job
job_of elapsed idle = record { elapsed = elapsed; throws = false; idle = idle }

abbrev jobs : List Job
jobs = job_of 100000000 0 ∷ job_of 400000000 5 ∷ job_of 100000000 7 ∷ []

request_times-allowed_example :
    in_window 0 2000000000 (request_times 0 jobs)
      + in_window 0 2000000000 (request_times 1 jobs)
      + in_window 0 2000000000 (request_times 2 [])
    ≤ 18
request_times-allowed_example =
    request_times-allowed 0 0 1 2 jobs jobs [] (refl, (refl, (refl, tt))) (refl, (refl, (refl, tt)))
      tt

three_times : request_times 0 jobs ≡ 0 ∷ 345000000 ∷ 745000005 ∷ []
unfolding request_times held_time task_time
three_times = refl

-- Without an answer a task does not sleep, and the next one asks at once.
no_sleep :
    request_times 0 (record { elapsed = 5; throws = true; idle = 0 } ∷ job_of 1 0 ∷ []) ≡ 0 ∷ 5 ∷ []
unfolding request_times held_time task_time
no_sleep = refl
