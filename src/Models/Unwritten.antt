-- ===== src/Models/Unwritten.antt =====
-- The conversions of src/okx_models.cpp that are not written: they throw, with these texts.
use okx_cpp_api.Prelude.{◌++◌, Bytes, codes}
use okx_cpp_api.Result.{Result, err, runtime_error}
use okx_cpp_api.Models.{Candle, FundingRate}
use okx_cpp_api.Models.Base.{Listing}
use okx_cpp_api.Models.Market.{Ticker, SystemTime}
use okx_cpp_api.Models.Instruments.{Instrument}
use okx_cpp_api.Models.Account.{Balance, BalanceDetail}
use okx_cpp_api.Models.Positions.{Position}
use okx_cpp_api.Models.Orders.{Order, OrderResponse, OrderDetail}

-- `throw std::runtime_error("Unimplemented: ...")`.
abbrev unimplemented : {A : Type 0} → Bytes → Result A
unimplemented name = err (runtime_error (codes "Unimplemented: " ++ name))

abbrev ticker_to_json : {J D : Type 0} → Ticker D → Result J
ticker_to_json ticker = unimplemented (codes "Ticker::toJson()")

abbrev tickers_to_json : {J D : Type 0} → Listing J (Ticker D) → Result J
tickers_to_json tickers = unimplemented (codes "Tickers::toJson()")

abbrev candle_to_json : {J D : Type 0} → Candle D → Result J
candle_to_json candle = unimplemented (codes "Candle::toJson()")

abbrev candles_to_json : {J D : Type 0} → Listing J (Candle D) → Result J
candles_to_json candles = unimplemented (codes "Candles::toJson()")

abbrev funding_rate_to_json : {J D : Type 0} → FundingRate J D → Result J
funding_rate_to_json funding_rate = unimplemented (codes "FundingRate::toJson()")

abbrev funding_rates_to_json : {J D : Type 0} → Listing J (FundingRate J D) → Result J
funding_rates_to_json funding_rates = unimplemented (codes "FundingRates::toJson()")

abbrev instrument_to_json : {J D : Type 0} → Instrument D → Result J
instrument_to_json instrument = unimplemented (codes "Instrument::toJson()")

abbrev instruments_to_json : {J D : Type 0} → Listing J (Instrument D) → Result J
instruments_to_json instruments = unimplemented (codes "Instruments::toJson()")

abbrev balance_detail_to_json : {J D : Type 0} → BalanceDetail D → Result J
balance_detail_to_json balance_detail = unimplemented (codes "Balance::toJson()")

abbrev balance_to_json : {J D : Type 0} → Balance J D → Result J
balance_to_json balance = unimplemented (codes "Balance::toJson()")

abbrev system_time_to_json : {J : Type 0} → SystemTime J → Result J
system_time_to_json system_time = unimplemented (codes "SystemTime::toJson()")

abbrev position_to_json : {J D : Type 0} → Position D → Result J
position_to_json position = unimplemented (codes "Position::toJson()")

abbrev positions_to_json : {J D : Type 0} → Listing J (Position D) → Result J
positions_to_json positions = unimplemented (codes "Positions::toJson()")

abbrev order_from_json : {J D : Type 0} → Order D → J → Result (Order D)
order_from_json order j = unimplemented (codes "Order::fromJson()")

abbrev order_response_to_json : {J : Type 0} → OrderResponse → Result J
order_response_to_json order_response = unimplemented (codes "OrderResponse::toJson()")

abbrev order_responses_to_json : {J : Type 0} → Listing J OrderResponse → Result J
order_responses_to_json order_responses = unimplemented (codes "OrderResponses::toJson()")

abbrev order_detail_to_json : {J D : Type 0} → OrderDetail D → Result J
order_detail_to_json order_detail = unimplemented (codes "OrderDetail::toJson()")

abbrev order_details_to_json : {J D : Type 0} → Listing J (OrderDetail D) → Result J
order_details_to_json order_details = unimplemented (codes "OrderDetails::toJson()")
