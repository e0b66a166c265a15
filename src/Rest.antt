-- ===== src/Rest.antt =====
-- `RESTClient` of src/okx_rest_client.cpp: its state, how it takes a response apart, and its calls.
-- The readers of the models (`fromJson`) enter as `Reading`s. The paged loops have a module of their
-- own, History; `limited_get` is the part of them that makes one request.
pub mod Trading
pub mod Files
pub mod Calls
pub mod Readings
pub mod Pages
pub mod Usage
mod Examples
use okx_cpp_api.Prelude.{
  ℕ, ◌-◌, Bool, true, ◌||◌, Option, none, some, List, [], ◌==◌, if◌then◌else◌, is_empty, Bytes,
  codes,
}
use okx_cpp_api.Prelude.Int.{ℤ, pos, eqb_ℤ}
use okx_cpp_api.Result.{Result, ok, err, bad_response, api_error, ◌>>=◌}
use okx_cpp_api.Http.{
  Parameters, insert_or_assign, HttpSession, new_http_session, Signer, Network, Response, http_get,
}
use okx_cpp_api.RateLimiter.{RateLimiter, kline_limiter, market_data_history_limiter, wait}

-- A response that was read: the fields `code` and `msg` of its base `Response`, and the value that
-- the caller takes out of it.
pub record Reading (V : Type 0) : Type 0 where
  pub code : Bytes
  pub msg : Bytes
  pub value : V

-- `RESTClient` and `RESTClient::P`; `I` is `Instrument`. Every call holds the mutex of the
-- instruments while it reads or writes them.
pub record RestClient (I : Type 0) : Type 0 where
  pub instruments : List I
  pub kline_limiter : RateLimiter
  pub market_data_history_limiter : RateLimiter
  pub http_session : HttpSession

-- `RESTClient::RESTClient`.
unfoldable pub new_rest_client : {I : Type 0} → Bytes → Bytes → Bytes → RestClient I
new_rest_client api_key api_secret passphrase = record {
  instruments = [];
  kline_limiter = kline_limiter;
  market_data_history_limiter = market_data_history_limiter;
  http_session = new_http_session api_key api_secret passphrase;
}

-- `RESTClient::setCredentials`.
pub set_credentials : {I : Type 0} → RestClient I → Bytes → Bytes → Bytes → RestClient I
set_credentials client api_key api_secret passphrase = record client {
  http_session = new_http_session api_key api_secret passphrase;
}

-- `RESTClient::setInstruments`.
pub set_instruments : {I : Type 0} → RestClient I → List I → RestClient I
set_instruments client instruments = record client { instruments = instruments }

-- `P::checkResponse`; `http::status::ok` is 200.
unfoldable pub check_response : Response → Result Response
check_response response =
    if response.result_int == 200
    then ok response
    else err (bad_response response.result_int response.body)

-- `handleOKXResponse`: `from_json` reads the body, or lets an exception of nlohmann::json through;
-- `stoi` is the standard library's, which throws if the text is no number.
unfoldable pub handle_okx_response :
    {V : Type 0} → (Bytes → Result ℤ) → (Bytes → Result (Reading V)) → Response → Result V
handle_okx_response stoi from_json response = from_json response.body >>= (λ ret_val.
    stoi ret_val.code >>= (λ code.
      if eqb_ℤ code (pos 0) then ok ret_val.value else err (api_error ret_val.code ret_val.msg)))

module _ (network : Network) (version : Bytes) (signer : Signer) (stoi : Bytes → Result ℤ) where
  -- `checkResponse(get(...))`, then `handleOKXResponse`, at the time `ts`.
  unfoldable pub get_and_read :
      {V : Type 0}
      → HttpSession
      → Bytes
      → (Bytes → Result (Reading V))
      → Bytes
      → Parameters
      → Bool
      → Result V
  get_and_read session ts from_json path parameters is_public =
      http_get network version signer session ts path parameters is_public
      >>= (λ response. check_response response >>= handle_okx_response stoi from_json)

  module _ {I V : Type 0} (client : RestClient I) (ts : Bytes)
      (from_json : Bytes → Result (Reading V)) where
    -- `RESTClient::getTickers`; `inst_type` is the name of the instrument type.
    pub get_tickers : Bytes → Result V
    get_tickers inst_type =
        get_and_read client.http_session ts from_json (codes "/api/v5/market/tickers")
          (insert_or_assign (codes "instType") inst_type []) true

    -- `RESTClient::getLastFundingRate`.
    pub get_last_funding_rate : Bytes → Result V
    get_last_funding_rate inst_id =
        get_and_read client.http_session ts from_json (codes "/api/v5/public/funding-rate")
          (insert_or_assign (codes "instId") inst_id []) true

    -- `RESTClient::getSystemTime`.
    pub get_system_time : Result V
    get_system_time =
        get_and_read client.http_session ts from_json (codes "/api/v5/public/time") [] true

  -- `RESTClient::getInstruments`: it asks when there are no instruments yet, or when forced.
  unfoldable pub get_instruments :
      {I : Type 0}
      → RestClient I
      → Bytes
      → (Bytes → Result (Reading (List I)))
      → Bytes
      → Bool
      → RestClient I × Result (List I)
  unfolding set_instruments
  get_instruments client ts from_json inst_type force =
      if is_empty client.instruments || force
      then elim (get_and_read client.http_session ts from_json (codes "/api/v5/public/instruments")
          (insert_or_assign (codes "instType") inst_type []) true) [
            | ok instruments ↦ (set_instruments client instruments, ok instruments)
            | err e ↦ (client, err e)
          ]
      else (client, ok client.instruments)

  -- The last lines of `P::getHistoricalPrices`: the limiter, then the request; with the time that the
  -- limiter records. `now` and `later` are the clock of the limiter; `none` is its undefined behaviour.
  pub limited_get :
      {I V : Type 0}
      → RestClient I
      → ℕ
      → (ℕ → ℕ)
      → Bytes
      → (Bytes → Result (Reading V))
      → Parameters
      → Option (RestClient I × ℕ × Result V)
  limited_get client now later ts from_json parameters =
      elim (wait client.kline_limiter now later) [
        | none ↦ none
        | some (limiter, time) ↦ some (
          record client { kline_limiter = limiter },
          time,
          get_and_read client.http_session ts from_json (codes "/api/v5/market/history-candles")
              parameters true,
        )
      ]
