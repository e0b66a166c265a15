-- ===== src/Ws/Messages/Unwritten.antt =====
-- The conversions of src/okx_event_models.cpp that are not written: they throw, with these texts.
use okx_cpp_api.Prelude.{◌++◌, Bytes, codes}
use okx_cpp_api.Result.{Result, err, runtime_error}
use okx_cpp_api.Ws.Messages.{WsRequest, WsResponse, DataEvent}
use okx_cpp_api.Ws.Messages.Events.{DataEventCandlestick, DataEventTicker}

-- `throw std::runtime_error("Unimplemented: ...")`.
abbrev unimplemented : {A : Type 0} → Bytes → Result A
unimplemented name = err (runtime_error (codes "Unimplemented: " ++ name))

abbrev request_from_json : {J : Type 0} → WsRequest → J → Result WsRequest
request_from_json request j = unimplemented (codes "WSRequest::fromJson()")

abbrev response_to_json : {J : Type 0} → WsResponse → Result J
response_to_json response = unimplemented (codes "WSResponse::toJson()")

abbrev data_event_to_json : {J : Type 0} → DataEvent J → Result J
data_event_to_json data_event = unimplemented (codes "DataEvent::toJson()")

abbrev data_event_candlestick_to_json : {J D : Type 0} → DataEventCandlestick D → Result J
data_event_candlestick_to_json data_event_candlestick =
    unimplemented (codes "DataEventCandlestick::toJson()")

abbrev data_event_ticker_to_json : {J D : Type 0} → DataEventTicker D → Result J
data_event_ticker_to_json data_event_ticker = unimplemented (codes "DataEventCandlestick::toJson()")
