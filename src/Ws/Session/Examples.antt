-- ===== src/Ws/Session/Examples.antt =====
-- The session over the packed JSON of the examples.
use okx_cpp_api.Prelude.{◌≡◌, refl, true, [], ◌∷◌, if◌then◌else◌, Bytes, codes, bytes_eq}
use okx_cpp_api.Result.{ok, ◌>>=◌}
use okx_cpp_api.Enums.{OperationType, EventType}
use okx_cpp_api.Json.Packed.{packed, packed-IsJson}
use okx_cpp_api.Ws.Messages.{
  WsSubscription, WsResponse, new_response, subscription_to_json, subscription_from_json,
  response_from_json,
}
use okx_cpp_api.Ws.Messages.Roundtrip.{IsDumped, subscription_roundtrip}
use okx_cpp_api.Ws.Session.{
  contains_text, Session, new_session, write_subscription_request, request_text,
  read_subscription_request, is_subscribed, handle_control_event,
}
use okx_cpp_api.Ws.Session.Requests.{write_all, last_request_wins}
use okx_cpp_api.Ws.Session.Events.{
  count, change, response_text, handle_control_event-count, confirmed_is_subscribed,
}

abbrev tickers_of : Bytes → WsSubscription
tickers_of inst_id = record { channel = codes "tickers"; inst_id = inst_id }

abbrev op_text : OperationType → Bytes
op_text OperationType.subscribe = codes "subscribe"
op_text OperationType.unsubscribe = codes "unsubscribe"

subscription_roundtrip_example :
    ((s d : WsSubscription)
      → IsDumped packed s
      → (packed.parse (packed.dump (subscription_to_json packed s))
          >>= subscription_from_json packed d)
        ≡ ok s)
    × ((s t : WsSubscription)
        → IsDumped packed s
        → IsDumped packed t
        → packed.dump (subscription_to_json packed s) ≡ packed.dump (subscription_to_json packed t)
        → s ≡ t)
subscription_roundtrip_example = subscription_roundtrip packed packed-IsJson

-- The request for BTC is lost.
last_request_wins_example :
    let t = packed.dump (subscription_to_json packed (tickers_of (codes "ETH"))) in
    let pending = write_subscription_request (write_all new_session (codes "BTC" ∷ [])) t in
    (read_subscription_request packed op_text pending
      ≡ ok (new_session, request_text packed op_text (tickers_of (codes "ETH"))))
    × (read_subscription_request packed op_text new_session ≡ ok (new_session, []))
unfolding subscription_to_json contains_text
last_request_wins_example =
    last_request_wins packed op_text packed-IsJson new_session (codes "BTC" ∷ [])
      (tickers_of (codes "ETH")) (refl, refl) refl refl

-- The confirmation of a subscribing.
abbrev confirmation : EventType → Bytes → Bytes
confirmation e name = packed.object (
    (codes "event", name)
    ∷ (
      codes "arg",
      packed.object ((codes "channel", codes "tickers") ∷ (codes "instId", codes "BTC") ∷ []),
    )
    ∷ [])

abbrev confirmed : WsResponse
confirmed = record new_response { subscription = tickers_of (codes "BTC") }

abbrev message : Bytes
message = confirmation EventType.subscribe (codes "subscribe")

message_read : response_from_json packed new_response message ≡ ok confirmed
unfolding response_from_json subscription_from_json
message_read = refl

handle_control_event-count_example :
    (s' : Session) × (handle_control_event packed op_text new_session message ≡ ok s')
    × (s'.subscription_request ≡ [])
    × ((u : Bytes)
        → count u s'.subscriptions
          ≡ change EventType.subscribe
              (count u [])
              (if bytes_eq (response_text packed op_text confirmed) u then 1 else 0))
handle_control_event-count_example =
    handle_control_event-count packed op_text new_session message confirmed message_read

btc_is_subscribed :
    (s' : Session) × (handle_control_event packed op_text new_session message ≡ ok s')
    × (is_subscribed s' (response_text packed op_text confirmed) ≡ true)
    × (write_subscription_request s' (response_text packed op_text confirmed) ≡ s')
btc_is_subscribed =
    confirmed_is_subscribed packed op_text new_session message confirmed message_read refl
