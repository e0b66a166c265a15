-- ===== src/Ws/Messages.antt =====
-- src/okx_event_models.cpp: the JSON of subscriptions, requests and responses.
pub mod Roundtrip
pub mod Events
mod Unwritten
use okx_cpp_api.Prelude.{List, [], ◌∷◌, map, Bytes, codes}
use okx_cpp_api.Result.{Result, ok, ◌>>=◌}
use okx_cpp_api.Enums.{OperationType, EventType}
use okx_cpp_api.Json.{JsonLibrary}

pub record WsSubscription : Type 0 where
  pub channel : Bytes
  pub inst_id : Bytes

pub record WsRequest : Type 0 where
  pub op : OperationType
  pub subscriptions : List WsSubscription

pub record WsResponse : Type 0 where
  pub event : EventType
  pub subscription : WsSubscription
  pub code : Bytes
  pub msg : Bytes

-- A default-initialised `WSSubscription` and `WSResponse`.
abbrev pub new_subscription : WsSubscription
new_subscription = record { channel = []; inst_id = [] }

abbrev pub new_response : WsResponse
new_response = record {
  event = EventType.subscribe;
  subscription = new_subscription;
  code = [];
  msg = [];
}

module _ {J : Type 0} (json : JsonLibrary J) where
  open json use {text, array, object, element, read_text, read_event}

  -- `WSSubscription::toJson`.
  unfoldable pub subscription_to_json : WsSubscription → J
  subscription_to_json s =
      object ((codes "channel", text s.channel) ∷ (codes "instId", text s.inst_id) ∷ [])

  -- `WSSubscription::fromJson`, on the subscription that it fills.
  unfoldable pub subscription_from_json : WsSubscription → J → Result WsSubscription
  subscription_from_json s j = do
    channel ← read_text j (codes "channel") s.channel
    inst_id ← read_text j (codes "instId") s.inst_id
    ok (record { channel = channel; inst_id = inst_id })

  -- `WSResponse::fromJson`, on the response that it fills.
  unfoldable pub response_from_json : WsResponse → J → Result WsResponse
  response_from_json r j = do
    event ← read_event j (codes "event") r.event
    elim event [
      | EventType.error ↦ do
        code ← read_text j (codes "code") r.code
        msg ← read_text j (codes "msg") r.msg
        ok (record r { event = EventType.error; code = code; msg = msg })
      | other ↦ do
        arg ← element j (codes "arg")
        s ← subscription_from_json r.subscription arg
        ok (record r { event = other; subscription = s })
    ]

-- `WSRequest::toJson`; `op_json` is the JSON of an enumerator, which the repository does not define.
unfoldable pub request_to_json : {J : Type 0} → JsonLibrary J → (OperationType → J) → WsRequest → J
unfolding subscription_to_json
request_to_json json op_json r = json.object (
    (codes "op", op_json r.op)
    ∷ (codes "args", json.array (map (subscription_to_json json) r.subscriptions))
    ∷ [])

pub record DataEvent (J : Type 0) : Type 0 where
  pub channel : Bytes
  pub inst_id : Bytes
  pub payload : J

module _ {J : Type 0} (json : JsonLibrary J) where
  open json use {element, read_text}

  -- `DataEvent::fromJson`, on a new event; `payload` is its field `data`.
  unfoldable pub data_event_from_json : J → Result (DataEvent J)
  data_event_from_json j = do
    arg ← element j (codes "arg")
    channel ← read_text arg (codes "channel") []
    inst_id ← read_text arg (codes "instId") []
    payload ← element j (codes "data")
    ok (record { channel = channel; inst_id = inst_id; payload = payload })
