-- ===== src/Rest/Pages/Rates/Complete.antt =====
-- A download of funding rates from an exchange that keeps to its documents.
use okx_cpp_api.Prelude.{ℕ, ◌≤◌, ◌≡◌, false, List, reverse, length, All, Bytes}
use okx_cpp_api.Prelude.Int.{ℤ, minus_one, zero_ℤ, ◌≤ℤ◌, eqb_ℤ}
use okx_cpp_api.Result.{Result}
use okx_cpp_api.Http.{Network, Signer}
use okx_cpp_api.Models.{FundingRate}
use okx_cpp_api.History.{returned, funding_parameters}
use okx_cpp_api.History.Server.{IsDescending, between}
use okx_cpp_api.History.Complete.{get_funding_rates_all}
use okx_cpp_api.Rest.{RestClient, Reading}
use okx_cpp_api.Rest.Pages.Exchange.{Answers, Answers-Serves}
use okx_cpp_api.Rest.Pages.Rates.{rates_page, download_rates}

-- Let the exchange hold a history of funding rates, strictly newest first and none before the time 0, and
-- answer each request with the newest of those that its "before" and "after" ask for, of any number
-- above 0. Then `getFundingRates`, with a `from` that is not -1, returns within as many rounds as the
-- history is long, and gives each rate that is later than `from` and earlier than `to`, once, oldest first,
-- as many as there are, whatever `limit` is.
pub download_rates_whole :
    {I J D : Type 0} (network : Network) (version : Bytes) (signer : Signer)
    (stoi : Bytes → Result ℤ) (client : RestClient I) (ts : Bytes)
    (read_rates : Bytes → Result (Reading (List (FundingRate J D)))) (to_string : ℤ → Bytes)
    (of_string : Bytes → ℤ) (inst_id : Bytes) (from limit : ℤ) (fuel : ℕ) (to : ℤ)
    (history : List (FundingRate J D))
    → eqb_ℤ from minus_one ≡ false
    → ((n : ℤ) → of_string (to_string n) ≡ n)
    → IsDescending (λ r. r.funding_time) history
    → All (λ r. zero_ℤ ≤ℤ r.funding_time) history
    → Answers
        (λ r. r.funding_time)
        to_string
        of_string
        history
        (λ last. funding_parameters to_string inst_id from last limit)
        (rates_page network version signer stoi client ts read_rates to_string inst_id from limit)
    → length history ≤ fuel
    → download_rates network version signer stoi client ts read_rates to_string inst_id from limit
        fuel to
      ≡ returned (reverse (between (λ r. r.funding_time) from to history))
unfolding download_rates funding_parameters
download_rates_whole network version signer stoi client ts read_rates to_string of_string inst_id
      from limit fuel to history has_from reads sorted not_early answers enough =
    get_funding_rates_all (λ r. r.funding_time) from to _ history fuel sorted
      (Answers-Serves (λ r. r.funding_time) to_string of_string from limit _ has_from reads history
        not_early _ answers)
      enough
