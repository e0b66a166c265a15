-- ===== src/Ws/Feed/Open.antt =====
-- When a session reads on through a sequence of messages, and what the tables hold then.
use okx_cpp_api.Prelude.{
  subst, ◌≡◌, refl, ◌∙◌, ◌≢◌, ◌⊎◌, inl, inr, true, false, ◌&&◌, Option, none, some, List, [], ◌∷◌,
  ◌++◌, arith, Bool-cases, is_empty, All, Bytes, codes,
}
use okx_cpp_api.Result.{Result, ok, Result-cases, ends_undefined, is_undefined}
use okx_cpp_api.Enums.{OperationType, EventType, BarSize, CandlestickChannel, EnumText}
use okx_cpp_api.Json.{JsonLibrary}
use okx_cpp_api.Ws.Messages.{
  WsResponse, new_response, response_from_json, DataEvent, data_event_from_json,
  subscription_to_json,
}
use okx_cpp_api.Ws.Session.{
  Session, Action, on_read, handle_message, handle_control_event, next_action,
  read_subscription_request, apply_event,
}
use okx_cpp_api.Ws.Session.Heard.{list_of, event_in, events_in, reads_on, on_read-event}
use okx_cpp_api.Ws.Session.Connection.Waiting.{handle_message-request}
use okx_cpp_api.Ws.Streams.{readable, done, on_data_event, lookup_ticker, lookup_candlestick}
use okx_cpp_api.Ws.Streams.Defined.{is_stray, has_stray, Ends, step-Ends}
use okx_cpp_api.Ws.Streams.Registers.{first_ticker, last_candlestick}
use okx_cpp_api.Ws.Feed.{Feed, goes_on, is_lost, call_back, deliver, deliver_all}
use okx_cpp_api.Ws.Feed.Delivery.{deliver_all-registers}

module _ {J T C : Type 0} (json : JsonLibrary J) (op_json : OperationType → J)
    (ticker_from_json : J → Result T) (candlestick_from_json : J → Result C)
    (channels : EnumText CandlestickChannel) where
  -- A message that parses, and that is a control event which can be read and confirms no unsubscribing, or
  -- is none and is no object without the keys that the session takes.
  abbrev pub IsHandled : Bytes → Type 0
  IsHandled message =
      (j : J) × (json.parse message ≡ ok j)
      × ((((json.is_object j && json.contains j (codes "event")) ≡ false)
            × (ends_undefined (data_event_from_json json j) ≡ false))
          ⊎ (((json.is_object j && json.contains j (codes "event")) ≡ true)
              × (r : WsResponse) × (response_from_json json new_response j ≡ ok r)
              × (r.event ≢ EventType.unsubscribe)))

  apply_event-full :
      (s : Session) (e : EventType) (t : Bytes)
      → e ≢ EventType.unsubscribe
      → is_empty s.subscriptions ≡ false
      → is_empty (apply_event json op_json s e t).subscriptions ≡ false
  unfolding apply_event
  apply_event-full s EventType.error t h full = full
  apply_event-full s EventType.unsubscribe t h full = absurd (h refl)
  apply_event-full s EventType.subscribe t h full = append_full s.subscriptions
    where
      append_full : (ts : List Bytes) → is_empty (ts ++ (t ∷ [])) ≡ false
      append_full [] = refl
      append_full (u ∷ us) = refl

  -- What is left of a session that has subscriptions.
  abbrev Handled : Session → J → Type 0
  Handled s j =
      (s' : Session) × (event : Option (DataEvent J)) × (handle_message json op_json s j
        ≡ ok (s', event))
      × (is_empty s'.subscriptions ≡ false)

  data-Handled :
      (s : Session) (j : J)
      → is_empty s.subscriptions ≡ false
      → (json.is_object j && json.contains j (codes "event")) ≡ false
      → ends_undefined (data_event_from_json json j) ≡ false
      → Handled s j
  unfolding handle_message ends_undefined
  data-Handled s j full h defined = elim (Bool-cases (json.is_object j)) [
    | inr o ↦ (s, none, rw (handle_message, o) refl, full)
    | inl o ↦ elim (Bool-cases (json.contains j (codes "event"))) [
      | inl c ↦ cc (rw (o, c) at h)
      | inr c ↦ elim (Result-cases (data_event_from_json json j)) [
        | inl (d, q) ↦ (s, some d, rw (handle_message, o, c, q) refl, full)
        | inr (e, q) ↦
            let kept : is_undefined e ≡ false = rw q at defined in
            (s, none, rw (handle_message, o, c, q, kept) refl, full)
      ]
    ]
  ]

  control-Handled :
      (s : Session) (j : J) (r : WsResponse)
      → is_empty s.subscriptions ≡ false
      → (json.is_object j && json.contains j (codes "event")) ≡ true
      → response_from_json json new_response j ≡ ok r
      → r.event ≢ EventType.unsubscribe
      → Handled s j
  unfolding handle_message handle_control_event
  control-Handled s j r full h q confirms = elim (Bool-cases (json.is_object j)) [
    | inr o ↦ cc (rw o at h)
    | inl o ↦
        let c : json.contains j (codes "event") ≡ true = rw o at h in
        let t = json.dump (subscription_to_json json r.subscription) in
        (
          apply_event json op_json s r.event t,
          none,
          rw (handle_message, o, c, handle_control_event, q) refl,
          apply_event-full s r.event t confirms full,
        )
  ]

  next_action_open :
      (s : Session)
      → s.subscription_request ≡ []
      → is_empty s.subscriptions ≡ false
      → next_action json op_json s ≡ ok (s, Action.read)
  unfolding next_action read_subscription_request
  next_action_open s e h = rw (next_action, read_subscription_request, e, h) refl

  -- The session has subscriptions, and no request that waits.
  abbrev pub IsServed : Session → Type 0
  IsServed s = (s.subscription_request ≡ []) × (is_empty s.subscriptions ≡ false)

  on_read_open :
      (s : Session) (message : Bytes)
      → IsServed s
      → IsHandled message
      → (s' : Session) × (event : Option (DataEvent J)) × (on_read json op_json s message
          ≡ (s', event, Action.read))
        × IsServed s'
  unfolding on_read
  on_read_open s message (e, full) (j, q, h) =
      let (s', event, y, full') : Handled s j = elim h [
        | inl (c, defined) ↦ data-Handled s j full c defined
        | inr (c, r, read, confirms) ↦ control-Handled s j r full c read confirms
      ] in
      let kept : s'.subscription_request ≡ [] =
        handle_message-request json op_json s s' j event y ∙ e in
      (s', event, rw (on_read, q, y, next_action_open s' kept full') refl, (kept, full'))

  -- A feed that reads on with a logger, and whose session is served.
  abbrev pub IsOpen : Feed T C → Type 0
  IsOpen f = (f.is_open ≡ true) × (f.logged ≡ true) × IsServed f.session

  call_back-IsOpen :
      (f : Feed T C) (s : Session) (event : Option (DataEvent J))
      → f.logged ≡ true
      → IsServed s
      → has_stray ticker_from_json candlestick_from_json channels (list_of json event) ≡ false
      → (f' : Feed T C) × (call_back json op_json ticker_from_json candlestick_from_json channels f
            s event Action.read
          ≡ done f')
        × IsOpen f'
  unfolding call_back has_stray goes_on
  call_back-IsOpen f s none logged kept tame = (_, refl, (refl, logged, kept))
  call_back-IsOpen f s (some e) logged kept tame =
      let named : is_stray ticker_from_json candlestick_from_json channels e ≡ false =
        ground arith in
      let (m, now) =
        subst
          (λ b. Ends b (on_data_event ticker_from_json candlestick_from_json channels f.manager e))
          named (step-Ends ticker_from_json candlestick_from_json channels f.manager e) in
      (
        record f { session = s; manager = m; is_open = true },
        rw (call_back, now) refl,
        (refl, logged, kept),
      )

  deliver_lem :
      (f : Feed T C) (message : Bytes) (s : Session) (event : Option (DataEvent J))
      → f.is_open ≡ true
      → f.logged ≡ true
      → on_read json op_json f.session message ≡ (s, event, Action.read)
      → deliver json op_json ticker_from_json candlestick_from_json channels f message
        ≡ call_back json op_json ticker_from_json candlestick_from_json channels f s event
            Action.read
  unfolding deliver is_lost
  deliver_lem f message s event opened logged read = rw (deliver, opened, logged, read) refl

  deliver-IsOpen :
      (f : Feed T C) (message : Bytes)
      → IsOpen f
      → IsHandled message
      → has_stray ticker_from_json candlestick_from_json channels
          (list_of json (event_in json message))
        ≡ false
      → (f' : Feed T C) × (deliver json op_json ticker_from_json candlestick_from_json channels f
            message
          ≡ done f')
        × IsOpen f'
  deliver-IsOpen f message (opened, logged, served) h tame =
      let (s, event, read, kept) = on_read_open f.session message served h in
      let same : event_in json message ≡ event =
        subst (λ r. reads_on json op_json (r.2) ≡ true → event_in json message ≡ r.1) read
          (on_read-event json op_json f.session message) refl in
      let (f', told, after) = call_back-IsOpen f s event logged kept (
        subst
          (λ x. has_stray ticker_from_json candlestick_from_json channels (list_of json x) ≡ false)
          same tame) in
      (f', deliver_lem f message s event opened logged read ∙ told, after)

  has_stray-append :
      (event : Option (DataEvent J)) (es : List (DataEvent J))
      → has_stray ticker_from_json candlestick_from_json channels (list_of json event ++ es) ≡ false
      → (has_stray ticker_from_json candlestick_from_json channels (list_of json event) ≡ false)
        × (has_stray ticker_from_json candlestick_from_json channels es ≡ false)
  unfolding has_stray
  has_stray-append none es h = (refl, h)
  has_stray-append (some e) es h = ground arith

  deliver_all-IsOpen :
      (f : Feed T C) (messages : List Bytes)
      → IsOpen f
      → All IsHandled messages
      → has_stray ticker_from_json candlestick_from_json channels (events_in json messages) ≡ false
      → (f' : Feed T C) × (deliver_all json op_json ticker_from_json candlestick_from_json channels
            f messages
          ≡ done f')
        × IsOpen f'
  unfolding deliver_all events_in
  deliver_all-IsOpen f [] o hs tame = (f, refl, o)
  deliver_all-IsOpen f (message ∷ messages) o (h, hs) tame =
      let (now, later) = has_stray-append (event_in json message) (events_in json messages) tame in
      let (f1, told, o1) = deliver-IsOpen f message o h now in
      let (f', rest, o') = deliver_all-IsOpen f1 messages o1 hs later in
      (f', rw (deliver_all, told) rest, o')

  -- A session with a logger, with subscriptions and no request that waits takes in every message of a
  -- sequence, when each is JSON, each control event of them can be read and confirms no unsubscribing, and no
  -- event is undefined behaviour: it reads on after them, and the tables are registers. The lookup of a ticker gives the first ticker of its instrument that is in the messages and
  -- can be read, or what was there before; the lookup of an instrument and a bar size gives the last
  -- candlesticks for these two in the messages, or else what was there before.
  pub deliver_all-handled :
      (f : Feed T C) (messages : List Bytes)
      → f.is_open ≡ true
      → f.logged ≡ true
      → f.session.subscription_request ≡ []
      → is_empty f.session.subscriptions ≡ false
      → All IsHandled messages
      → has_stray ticker_from_json candlestick_from_json channels (events_in json messages) ≡ false
      → (f' : Feed T C) × (deliver_all json op_json ticker_from_json candlestick_from_json channels
            f messages
          ≡ done f')
        × (f'.is_open ≡ true)
        × ((i : Bytes)
            → lookup_ticker f'.manager i
              ≡ first_ticker
                  (readable ticker_from_json)
                  (readable candlestick_from_json)
                  channels
                  i
                  (events_in json messages)
                  (lookup_ticker f.manager i))
        × ((i : Bytes) (b : BarSize)
            → lookup_candlestick f'.manager i b
              ≡ last_candlestick
                  (readable ticker_from_json)
                  (readable candlestick_from_json)
                  channels
                  i
                  b
                  (events_in json messages)
                  (lookup_candlestick f.manager i b))
  deliver_all-handled f messages opened logged none_waits full hs tame =
      let (f', told, (opened', _, _)) =
        deliver_all-IsOpen f messages (opened, logged, (none_waits, full)) hs tame in
      let (tickers, candlesticks) =
        deliver_all-registers json op_json ticker_from_json candlestick_from_json channels f f'
          messages told opened' in
      (f', told, opened', tickers, candlesticks)
