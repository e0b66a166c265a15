-- ===== src/Rest/Pages/Rates.antt =====
-- `P::getFundingRates` and `RESTClient::getFundingRates` of src/okx_rest_client.cpp on a client. No limiter
-- stands before these requests.
pub mod Complete
use okx_cpp_api.Prelude.{ℕ, ◌-◌, true, List, Bytes, codes}
use okx_cpp_api.Prelude.Int.{ℤ}
use okx_cpp_api.Result.{Result}
use okx_cpp_api.Http.{Network, Signer}
use okx_cpp_api.Models.{FundingRate}
use okx_cpp_api.History.{Outcome, funding_parameters, get_funding_rates}
use okx_cpp_api.Rest.{RestClient, Reading, get_and_read}

module _ (network : Network) (version : Bytes) (signer : Signer) (stoi : Bytes → Result ℤ)
    {I J D : Type 0} (client : RestClient I) (ts : Bytes)
    (read_rates : Bytes → Result (Reading (List (FundingRate J D)))) (to_string : ℤ → Bytes)
    (inst_id : Bytes) (from limit : ℤ) where
  -- `P::getFundingRates`.
  unfoldable pub rates_page : ℤ → Result (List (FundingRate J D))
  rates_page to =
      get_and_read network version signer stoi client.http_session ts read_rates
        (codes "/api/v5/public/funding-rate-history")
        (funding_parameters to_string inst_id from to limit) true

  -- `RESTClient::getFundingRates`.
  pub download_rates : ℕ → ℤ → Outcome (List (FundingRate J D))
  unfolding rates_page
  download_rates fuel to = get_funding_rates (λ r. r.funding_time) rates_page fuel from to
