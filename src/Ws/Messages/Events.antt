-- ===== src/Ws/Messages/Events.antt =====
-- src/okx_event_models.cpp: what data events hold, read from the `data` of an event.
use okx_cpp_api.Prelude.{List, []}
use okx_cpp_api.Result.{Result, ok, ◌>>=◌}
use okx_cpp_api.Models.{Candle}
use okx_cpp_api.Models.Base.{ModelJson, push_items}
use okx_cpp_api.Models.Market.{Ticker, new_ticker, ticker_from_json, candle_from_json}

pub record DataEventCandlestick (D : Type 0) : Type 0 where
  pub candles : List (Candle D)

pub record DataEventTicker (D : Type 0) : Type 0 where
  pub tickers : List (Ticker D)

module _ {J D : Type 0} (lib : ModelJson J D) where
  -- `DataEventCandlestick::fromJson`, on a new event.
  unfoldable pub data_event_candlestick_from_json : J → Result (DataEventCandlestick D)
  data_event_candlestick_from_json j = do
    candles ← push_items lib (candle_from_json lib) [] (lib.items j)
    ok (record { candles = candles })

  -- `DataEventTicker::fromJson`, on a new event.
  unfoldable pub data_event_ticker_from_json : J → Result (DataEventTicker D)
  data_event_ticker_from_json j = do
    tickers ← push_items lib (ticker_from_json lib (new_ticker lib.decimal.nought)) [] (lib.items j)
    ok (record { tickers = tickers })
