-- ===== src/Ws/Client.antt =====
-- src/okx_ws_client.cpp, and the subscribing functions of src/okx_ws_stream_manager.cpp. The weak
-- pointer to the session is `some` while the session lives; its thread runs `ioContext`.
pub mod Subscribing
pub mod Confirmed
pub mod Thread
mod Examples
use okx_cpp_api.Prelude.{
  Bool, true, false, Option, none, some, if◌then◌else◌, is_empty, Bytes, codes,
}
use okx_cpp_api.Result.{Result, ok, err, runtime_error, ◌>>=◌}
use okx_cpp_api.Json.{JsonLibrary}
use okx_cpp_api.Enums.{BarSize, CandlestickChannel, EnumText}
use okx_cpp_api.Okx.{bar_size_to_candlestick_channel}
use okx_cpp_api.Ws.Messages.{subscription_to_json}
use okx_cpp_api.Ws.Session.{Session, new_session, write_subscription_request}
use okx_cpp_api.Ws.Session

-- `WebSocketClient::P`; of the two callbacks it is kept whether they are set. The thread and its work
-- are in the module Thread.
pub record Client : Type 0 where
  pub session : Option Session
  pub is_running : Bool
  pub log_message_cb : Bool
  pub data_event_cb : Bool

-- The constructor, `setLoggerCallback` and `setDataEventCallback`.
abbrev pub new_client : Client
new_client = record {
  session = none;
  is_running = false;
  log_message_cb = false;
  data_event_cb = false;
}

pub set_logger_callback : Client → Bool → Client
set_logger_callback c is_set = record c { log_message_cb = is_set }

pub set_data_event_callback : Client → Bool → Client
set_data_event_callback c is_set = record c { data_event_cb = is_set }

-- `WebSocketClient::run`: the thread is started once, and clears the flag when it ends.
pub run : Client → Client
run c = if c.is_running then c else record c { is_running = true }

-- `WebSocketSession::run` on a new session; the connection that it begins is Asio's.
pub session_run : Session → Bytes → Result Session
session_run s request =
    if is_empty request
    then err (runtime_error (codes "SubscriptionRequest cannot be empty"))
    else ok (write_subscription_request s request)

-- `WebSocketClient::subscribe`.
pub subscribe : Client → Bytes → Result Client
unfolding session_run
subscribe c request = elim c.session [
  | some s ↦ ok (record c { session = some (write_subscription_request s request) })
  | none ↦ do s ← session_run new_session request; ok (record c { session = some s })
]

-- `WebSocketClient::isSubscribed`.
pub is_subscribed : Client → Bytes → Bool
is_subscribed c request = elim c.session [ some s ↦ Session.is_subscribed s request | none ↦ false ]

-- The common end of the two functions below: ask, unless it is subscribed, and run.
subscribe_stream : Client → Bytes → Result Client
unfolding subscribe is_subscribed run
subscribe_stream c request = do
  c' ← if is_subscribed c request then ok c else subscribe c request
  ok (run c')

module _ {J : Type 0} (json : JsonLibrary J) where
  -- `WSStreamManager::subscribeTickersStream`.
  pub subscribe_tickers_stream : Client → Bytes → Result Client
  unfolding subscribe_stream
  subscribe_tickers_stream c inst_id = subscribe_stream c (
      json.dump
        (subscription_to_json json (record { channel = codes "tickers"; inst_id = inst_id })))

  -- `WSStreamManager::subscribeCandlestickStream`.
  pub subscribe_candlestick_stream :
      EnumText CandlestickChannel → Client → Bytes → BarSize → Result Client
  unfolding subscribe_stream
  subscribe_candlestick_stream channels c inst_id bar_size = subscribe_stream c (
      json.dump (
        subscription_to_json json (record {
          channel = channels.enum_name (bar_size_to_candlestick_channel bar_size);
          inst_id = inst_id;
        })))
