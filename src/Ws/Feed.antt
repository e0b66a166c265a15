-- ===== src/Ws/Feed.antt =====
-- What a stream of messages does: `onRead` of src/okx_ws_session.cpp with the callback that
-- src/okx_ws_stream_manager.cpp sets, and a reader that waits on the tables meanwhile.
pub mod Delivery
pub mod Open
pub mod Reading
mod Examples
use okx_cpp_api.Prelude.{
  Bool, true, false, not, ◌&&◌, Option, none, some, List, [], ◌∷◌, if◌then◌else◌, Bytes, codes,
  bytes_eq,
}
use okx_cpp_api.Result.{Result, ok, err, is_undefined, throws}
use okx_cpp_api.Enums.{OperationType, EventType, CandlestickChannel, EnumText}
use okx_cpp_api.Json.{JsonLibrary}
use okx_cpp_api.Ws.Messages.{DataEvent, data_event_from_json, new_response, response_from_json}
use okx_cpp_api.Ws.Session.{Session, Action, on_read}
use okx_cpp_api.Ws.Client.{Client, new_client, set_data_event_callback}
use okx_cpp_api.Ws.Client
use okx_cpp_api.Ws.Streams.{
  StreamManager, new_stream_manager, Callback, done, undefined, has_part, on_data_event,
}

-- A session, the manager that its callback fills, whether the session has a logger, which it has if one was
-- set before it was made, and whether the session goes on reading. The manager has its own logger, which may
-- be set later.
pub record Feed (T C : Type 0) : Type 0 where
  pub session : Session
  pub manager : StreamManager T C
  pub logged : Bool
  pub is_open : Bool

-- `WSStreamManager::P` with its client: the constructor, which sets the callback below, and
-- `setLoggerCallback`, which hands the logger on to the client.
abbrev pub new_manager : {T C : Type 0} → StreamManager T C × Client
new_manager = (new_stream_manager, set_data_event_callback new_client true)

pub set_logger_callback :
    {T C : Type 0} → StreamManager T C × Client → Bool → StreamManager T C × Client
set_logger_callback (m, c) is_set =
    (record m { log_message_cb = is_set }, Client.set_logger_callback c is_set)

-- Whether the session goes on: one without subscriptions quits.
pub goes_on : Action → Bool
goes_on (Action.write text) = true
goes_on Action.read = true
goes_on Action.close_and_read = false
goes_on Action.close = false
goes_on Action.undefined_behaviour = false

-- Whether `onRead` ended in undefined behaviour.
pub is_lost : Action → Bool
is_lost Action.undefined_behaviour = true
is_lost _ = false

module _ {J T C : Type 0} (json : JsonLibrary J) (op_json : OperationType → J)
    (ticker_from_json : J → Result T) (candlestick_from_json : J → Result C)
    (channels : EnumText CandlestickChannel) where
  -- Whether the callback catches an exception when it reads the payload, which it logs.
  pub logs_event : DataEvent J → Bool
  unfolding throws
  logs_event e =
      if bytes_eq e.channel (codes "tickers")
      then throws (ticker_from_json e.payload)
      else has_part (codes "candle") e.channel && throws (candlestick_from_json e.payload)

  -- Whether `handleControlEvent` logs: it does for an error.
  pub logs_control : J → Bool
  logs_control j = elim (response_from_json json new_response j) [
    | err e ↦ false
    | ok response ↦ elim response.event [ EventType.error ↦ true | _ ↦ false ]
  ]

  -- Whether `onRead` calls the logger of the session for a message before it goes on: for an error of the
  -- exchange, for a data event that cannot be read, and for one with a payload that the callback cannot
  -- read, when the callback has no logger (`has_logger`), whose call throws out of the callback.
  pub logs_message : Bool → Bytes → Bool
  unfolding logs_event logs_control is_undefined
  logs_message has_logger message = elim (json.parse message) [
    | err e ↦ false
    | ok j ↦
        if not (json.is_object j)
        then false
        else if json.contains j (codes "event")
        then logs_control j
        else elim (data_event_from_json json j) [
          | err e ↦ not (is_undefined e)
          | ok e ↦ not has_logger && logs_event e
        ]
  ]

  -- The callback of the client, and the feed after it.
  pub call_back : Feed T C → Session → Option (DataEvent J) → Action → Callback (Feed T C)
  unfolding goes_on
  call_back f s none action = done (record f { session = s; is_open = goes_on action })
  call_back f s (some e) action =
      elim (on_data_event ticker_from_json candlestick_from_json channels f.manager e) [
        | undefined ↦ undefined
        | done m ↦ done (record f { session = s; manager = m; is_open = goes_on action })
      ]

  -- `onRead` for a message that was received. To call the logger of a session that has none is an
  -- exception, which leaves `onRead` before it reads on.
  pub deliver : Feed T C → Bytes → Callback (Feed T C)
  unfolding logs_message call_back is_lost
  deliver f message =
      let (s, event, action) = on_read json op_json f.session message in
      if not f.is_open
      then done f
      else if not f.logged && logs_message f.manager.log_message_cb message
      then done (record f { is_open = false })
      else if is_lost action
      then undefined
      else call_back f s event action

  -- A sequence of messages.
  pub deliver_all : Feed T C → List Bytes → Callback (Feed T C)
  unfolding deliver
  deliver_all f [] = done f
  deliver_all f (message ∷ messages) = elim (deliver f message) [
    | undefined ↦ undefined
    | done f' ↦ deliver_all f' messages
  ]
