-- ===== src/Rest/Readings.antt =====
-- `handleOKXResponse` for each type that the client asks for: the body is parsed, and read into a new
-- value of the type.
pub mod Listings
mod Examples
use okx_cpp_api.Prelude.{List, [], Bytes}
use okx_cpp_api.Prelude.Int.{ℤ, zero_ℤ}
use okx_cpp_api.Result.{Result, ok, ◌>>=◌}
use okx_cpp_api.Models.{Candle, FundingRate, new_funding_rate}
use okx_cpp_api.Models.Base.{ModelJson, new_response, Listing, new_listing}
use okx_cpp_api.Models.Market.{
  Ticker, tickers_from_json, candles_from_json, funding_rate_from_json, funding_rates_from_json,
  system_time_from_json,
}
use okx_cpp_api.Models.Instruments.{Instrument, instruments_from_json}
use okx_cpp_api.Models.Account.{Balance, balance_from_json}
use okx_cpp_api.Models.Positions.{Position, positions_from_json}
use okx_cpp_api.Models.Orders.{
  OrderResponse, order_responses_from_json, OrderDetail, order_details_from_json,
}
use okx_cpp_api.Models.Archive.{MarketDataHistory, new_history, history_from_json}
use okx_cpp_api.Rest.{Reading}

-- `null` is JSON's null, which a new `Response` holds.
module _ {J D : Type 0} (lib : ModelJson J D) (null : J) where
  -- A list: `ValueType` is one of the seven listings, and the caller takes its vector.
  pub listing_reading :
      {A : Type 0} → (Listing J A → J → Result (Listing J A)) → Bytes → Result (Reading (List A))
  listing_reading from_json body = do
    j ← lib.json.parse body
    l ← from_json (new_listing null) j
    ok (record { code = l.response.code; msg = l.response.msg; value = l.elements })

  -- `handleOKXResponse<Tickers>(response).tickers`.
  pub tickers_reading : Bytes → Result (Reading (List (Ticker D)))
  unfolding listing_reading
  tickers_reading = listing_reading (tickers_from_json lib)

  -- `handleOKXResponse<Instruments>(response)`.
  pub instruments_reading : Bytes → Result (Reading (List (Instrument D)))
  unfolding listing_reading
  instruments_reading = listing_reading (instruments_from_json lib)

  -- `handleOKXResponse<Candles>(response).candles`.
  pub candles_reading : Bytes → Result (Reading (List (Candle D)))
  unfolding listing_reading
  candles_reading = listing_reading (candles_from_json lib)

  -- `handleOKXResponse<FundingRates>(response).rates`.
  pub funding_rates_reading : Bytes → Result (Reading (List (FundingRate J D)))
  unfolding listing_reading
  funding_rates_reading = listing_reading (funding_rates_from_json lib null)

  -- `handleOKXResponse<Positions>(response).positions`.
  pub positions_reading : Bytes → Result (Reading (List (Position D)))
  unfolding listing_reading
  positions_reading = listing_reading (positions_from_json lib)

  -- `handleOKXResponse<OrderResponses>(response).orderResponses`.
  pub order_responses_reading : Bytes → Result (Reading (List OrderResponse))
  unfolding listing_reading
  order_responses_reading = listing_reading (order_responses_from_json lib)

  -- `handleOKXResponse<OrderDetails>(response).orderDetails`.
  pub order_details_reading : Bytes → Result (Reading (List (OrderDetail D)))
  unfolding listing_reading
  order_details_reading = listing_reading (order_details_from_json lib)

  -- `handleOKXResponse<FundingRate>(response)`.
  pub funding_rate_reading : Bytes → Result (Reading (FundingRate J D))
  funding_rate_reading body = do
    j ← lib.json.parse body
    r ← funding_rate_from_json lib (new_funding_rate null lib.decimal.nought) j
    ok (record { code = r.code; msg = r.msg; value = r })

  -- `handleOKXResponse<SystemTime>(response).ts`.
  pub system_time_reading : Bytes → Result (Reading ℤ)
  system_time_reading body = do
    j ← lib.json.parse body
    r ← system_time_from_json lib (record { response = new_response null; ts = zero_ℤ }) j
    ok (record { code = r.response.code; msg = r.response.msg; value = r.ts })

  -- `handleOKXResponse<Balance>(response)`.
  pub balance_reading : Bytes → Result (Reading (Balance J D))
  balance_reading body = do
    j ← lib.json.parse body
    let nought = lib.decimal.nought
    r ←
        balance_from_json lib
          (record {
            response = new_response null;
            adj_eq = nought;
            imr = nought;
            iso_eq = nought;
            mgn_ratio = nought;
            mmr = nought;
            notional_usd = nought;
            ord_froz = nought;
            total_eq = nought;
            u_time = zero_ℤ;
            balance_details = [];
          })
          j
    ok (record { code = r.response.code; msg = r.response.msg; value = r })

  -- `handleOKXResponse<MarketDataHistory>(response)`.
  pub history_reading : Bytes → Result (Reading MarketDataHistory)
  history_reading body = do
    j ← lib.json.parse body
    r ← history_from_json lib (new_response null) new_history j
    ok (record { code = r.0.code; msg = r.0.msg; value = r.1 })
