-- ===== src/Ws/Session.antt =====
-- src/okx_ws_session.cpp: the subscriptions of a session and what it does with a message. The
-- handlers that pass a connection on are in the module Connection.
pub mod Requests
pub mod Events
pub mod Connection
pub mod Heard
mod Examples
use okx_cpp_api.Prelude.{
  ◌+◌, Bool, false, ◌||◌, Option, none, some, List, [], ◌∷◌, ◌++◌, if◌then◌else◌, is_empty, Bytes,
  codes, bytes_eq,
}
use okx_cpp_api.Result.{is_undefined, Error, Result, ok, err, ◌>>=◌}
use okx_cpp_api.Enums.{OperationType, EventType}
use okx_cpp_api.Json.{JsonLibrary}
use okx_cpp_api.Ws.Messages.{
  WsSubscription, new_subscription, new_response, subscription_to_json, subscription_from_json,
  request_to_json, response_from_json, DataEvent, data_event_from_json,
}

-- The guarded fields of `WebSocketSession::P`: the confirmed subscriptions, and the one request that
-- waits to be written; the empty text is none.
pub record Session : Type 0 where
  pub subscriptions : List Bytes
  pub subscription_request : Bytes

abbrev pub new_session : Session
new_session = record { subscriptions = []; subscription_request = [] }

unfoldable pub contains_text : List Bytes → Bytes → Bool
contains_text [] s = false
contains_text (t ∷ ts) s = bytes_eq t s || contains_text ts s

-- `std::ranges::find` and `erase`.
pub erase_first : Bytes → List Bytes → List Bytes
erase_first s [] = []
erase_first s (t ∷ ts) = if bytes_eq t s then ts else t ∷ erase_first s ts

-- `writeSubscriptionRequest`.
unfoldable pub write_subscription_request : Session → Bytes → Session
unfolding contains_text
write_subscription_request s request =
    if contains_text s.subscriptions request then s else record s { subscription_request = request }

-- `isSubscribed`.
unfoldable pub is_subscribed : Session → Bytes → Bool
unfolding contains_text
is_subscribed s request = contains_text s.subscriptions request

-- What a handler asks of the socket: to write a text, to read on, to close and read on, or to close; or
-- undefined behaviour, after which nothing is known.
pub data Action : Type 0 where
  write : Bytes → Action
  read : Action
  close_and_read : Action
  close : Action
  undefined_behaviour : Action

-- What follows what `onRead` does not get through.
unfoldable pub failed : Error → Action
failed e = if is_undefined e then undefined_behaviour else close

-- `op_json` is the JSON of an operation; a data event is handed to the callback.
module _ {J : Type 0} (json : JsonLibrary J) (op_json : OperationType → J) where
  open json use {parse, dump, is_object, contains}

  -- The text of the request that is written for a subscription.
  pub request_text : WsSubscription → Bytes
  request_text wanted = dump (
      request_to_json json op_json
        (record { op = OperationType.subscribe; subscriptions = wanted ∷ [] }))

  -- `readSubscriptionRequest`: an exception leaves the session as it was.
  unfoldable pub read_subscription_request : Session → Result (Session × Bytes)
  unfolding request_text
  read_subscription_request s = if is_empty s.subscription_request then ok (s, []) else (do
    j ← parse s.subscription_request
    wanted ← subscription_from_json json new_subscription j
    ok (record s { subscription_request = [] }, request_text wanted))

  -- The branches of `handleControlEvent`, on the response that was read.
  unfoldable pub apply_event : Session → EventType → Bytes → Session
  unfolding erase_first
  apply_event s EventType.error subscription = s
  apply_event s EventType.subscribe subscription = record s {
    subscriptions = s.subscriptions ++ (subscription ∷ []);
  }
  apply_event s EventType.unsubscribe subscription = record s {
    subscriptions = erase_first subscription s.subscriptions;
  }

  -- `handleControlEvent`.
  unfoldable pub handle_control_event : Session → J → Result Session
  unfolding apply_event
  handle_control_event s j = do
    response ← response_from_json json new_response j
    ok (apply_event s response.event (dump (subscription_to_json json response.subscription)))

  -- The message itself, in `onRead`: what is no object, and a data event that ends in an exception when it is read,
  -- change nothing. With the data event that the callback is called with.
  unfoldable pub handle_message : Session → J → Result (Session × Option (DataEvent J))
  handle_message s j =
      if is_object j
      then (if contains j (codes "event")
          then elim (handle_control_event s j) [ ok s' ↦ ok (s', none) | err e ↦ err e ]
          else elim (data_event_from_json json j) [
            | ok event ↦ ok (s, some event)
            | err e ↦ if is_undefined e then err e else ok (s, none)
          ])
      else ok (s, none)

  -- What `onRead` does next: a waiting request is written, else it reads on, and a session without
  -- subscriptions is closed.
  unfoldable pub next_action : Session → Result (Session × Action)
  next_action s = do
    (s', subscription) ← read_subscription_request s
    if is_empty subscription
        then ok (s', if is_empty s'.subscriptions then close_and_read else read)
        else ok (s', write subscription)

  -- `onRead` for a message that was received. An exception of the JSON library closes the socket.
  unfoldable pub on_read : Session → Bytes → Session × Option (DataEvent J) × Action
  unfolding handle_message next_action failed
  on_read s message = elim (parse message >>= handle_message s) [
    | err e ↦ (s, none, failed e)
    | ok (s', event) ↦ elim (next_action s') [
      | err e ↦ (s', event, failed e)
      | ok (s'', action) ↦ (s'', event, action)
    ]
  ]
