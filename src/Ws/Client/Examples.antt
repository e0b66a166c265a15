-- ===== src/Ws/Client/Examples.antt =====
-- A first subscribing, and its confirmation.
use okx_cpp_api.Prelude.{◌⊎◌, ◌≡◌, refl, true, false, none, some, [], ◌∷◌, Bytes, codes}
use okx_cpp_api.Result.{ok}
use okx_cpp_api.Json.Packed.{packed, packed-IsJson}
use okx_cpp_api.Enums.{OperationType}
use okx_cpp_api.Ws.Messages.{
  WsSubscription, new_response, subscription_to_json, subscription_from_json, response_from_json,
}
use okx_cpp_api.Ws.Session.{new_session, request_text}
use okx_cpp_api.Ws.Session.Connection.{
  Connection, timing, writing, reading, on_handshake, on_read_done,
}
use okx_cpp_api.Ws.Client.Confirmed.{
  with_session, confirmed_session, subscribe_tickers_stream_confirmed,
}
use okx_cpp_api.Ws.Client.{Client, new_client, is_subscribed, subscribe_tickers_stream}
use okx_cpp_api.Ws.Client.Subscribing.{IsAsked, subscribe_tickers_stream-IsAsked}

abbrev idle : Client
idle = record new_client { data_event_cb = true }

abbrev btc_text : Bytes
btc_text =
    packed.dump
      (subscription_to_json packed (record { channel = codes "tickers"; inst_id = codes "BTC" }))

subscribe_tickers_stream-IsAsked_example :
    (c' : Client) × (subscribe_tickers_stream packed idle (codes "BTC") ≡ ok c')
    × IsAsked btc_text c'
    × ((is_subscribed idle btc_text ≡ false) ⊎ (c'.session ≡ none))
unfolding subscription_to_json
subscribe_tickers_stream-IsAsked_example =
    subscribe_tickers_stream-IsAsked packed idle (codes "BTC") refl

-- The exchange confirms the subscription.
abbrev op_text : OperationType → Bytes
op_text op = []

abbrev btc : WsSubscription
btc = record { channel = codes "tickers"; inst_id = codes "BTC" }

abbrev confirmation : Bytes
confirmation = packed.object (
    (codes "event", codes "subscribe")
    ∷ (
      codes "arg",
      packed.object ((codes "channel", codes "tickers") ∷ (codes "instId", codes "BTC") ∷ []),
    )
    ∷ [])

abbrev connection : Connection
connection = record {
  session = new_session;
  host = codes "h";
  last_ping_time = 0;
  last_pong_time = 0;
}

confirmation_read :
    response_from_json packed new_response confirmation
    ≡ ok (record new_response { subscription = btc })
unfolding response_from_json subscription_from_json
confirmation_read = refl

subscribe_tickers_stream_confirmed_example :
    let asked = record new_session { subscription_request = btc_text } in
    (subscribe_tickers_stream packed idle (codes "BTC") ≡ ok (with_session idle asked))
    × (on_handshake packed op_text (record connection { session = asked }) false
        ≡ (connection, timing ∷ writing (request_text packed op_text btc) ∷ []))
    × (on_read_done packed op_text connection (some confirmation)
        ≡ (record connection { session = confirmed_session btc_text }, reading ∷ []))
    × (is_subscribed (with_session idle (confirmed_session btc_text)) btc_text ≡ true)
    × (subscribe_tickers_stream packed
          (with_session idle (confirmed_session btc_text))
          (codes "BTC")
        ≡ ok (with_session idle (confirmed_session btc_text)))
unfolding subscription_to_json
subscribe_tickers_stream_confirmed_example =
    subscribe_tickers_stream_confirmed packed op_text packed-IsJson idle connection (codes "BTC")
      confirmation confirmation (record new_response { subscription = btc }) refl (refl, refl) refl
      refl refl refl confirmation_read refl refl
