-- ===== src/Ws/Feed/Delivery.antt =====
-- What the tables hold after a sequence of messages.
use okx_cpp_api.Prelude.{
  subst, ◌≡◌, refl, sym, ap, ◌∙◌, inl, inr, true, false, not, ◌&&◌, Option, none, some, List, [],
  ◌∷◌, ◌++◌, Bool-cases, Bytes,
}
use okx_cpp_api.Enums.{OperationType, BarSize, CandlestickChannel, EnumText}
use okx_cpp_api.Result.{Result}
use okx_cpp_api.Json.{JsonLibrary}
use okx_cpp_api.Ws.Messages.{DataEvent}
use okx_cpp_api.Ws.Session.{Session, Action, on_read}
use okx_cpp_api.Ws.Session.Heard.{list_of, event_in, events_in, reads_on, on_read-event}
use okx_cpp_api.Ws.Streams.{
  readable, StreamManager, Callback, done, undefined, on_data_event, on_data_events, lookup_ticker,
  lookup_candlestick,
}
use okx_cpp_api.Ws.Streams.Tables.{on_data_events_cons}
use okx_cpp_api.Ws.Streams.Registers.{first_ticker, last_candlestick, on_data_events-registers}
use okx_cpp_api.Ws.Feed.{Feed, logs_message, is_lost, goes_on, call_back, deliver, deliver_all}

module _ {J T C : Type 0} (json : JsonLibrary J) (op_json : OperationType → J)
    (ticker_from_json : J → Result T) (candlestick_from_json : J → Result C)
    (channels : EnumText CandlestickChannel) where
  abbrev fed : Feed T C → Bytes → Callback (Feed T C)
  fed = deliver json op_json ticker_from_json candlestick_from_json channels

  abbrev stored : StreamManager T C → List (DataEvent J) → Callback (StreamManager T C)
  stored = on_data_events ticker_from_json candlestick_from_json channels

  pub goes_on-reads_on :
      (action : Action) → goes_on action ≡ true → reads_on json op_json action ≡ true
  unfolding goes_on
  goes_on-reads_on (Action.write text) h = refl
  goes_on-reads_on Action.read h = refl
  goes_on-reads_on Action.close_and_read h = refl
  goes_on-reads_on Action.close h = cc
  goes_on-reads_on Action.undefined_behaviour h = cc

  -- What a message that leaves the session open has done.
  abbrev Told : Feed T C → Option (DataEvent J) → Feed T C → Type 0
  Told f event f' =
      (stored f.manager (list_of json event) ≡ done f'.manager) × (f'.logged ≡ f.logged)

  call_back-Told :
      (f f' : Feed T C) (s : Session) (event : Option (DataEvent J)) (action : Action)
      → call_back json op_json ticker_from_json candlestick_from_json channels f s event action
        ≡ done f'
      → Told f event f' × (f'.is_open ≡ goes_on action)
  unfolding call_back on_data_events
  call_back-Told f f' s none action h =
      let given : done (record f { session = s; is_open = goes_on action }) ≡ done f' = h in
      let same : record f { session = s; is_open = goes_on action } ≡ f' = cc in
      (
        (ap (λ x. done (x.manager)) same, ap (λ x. x.logged) (sym same)),
        ap (λ x. x.is_open) (sym same),
      )
  call_back-Told f f' s (some e) action h =
      called (on_data_event ticker_from_json candlestick_from_json channels f.manager e) refl h
    where
      called :
          (r : Callback (StreamManager T C))
          → on_data_event ticker_from_json candlestick_from_json channels f.manager e ≡ r
          → elim r [
            | undefined ↦ undefined
            | done m ↦ done (record f { session = s; manager = m; is_open = goes_on action })
          ]
            ≡ done f'
          → Told f (some e) f' × (f'.is_open ≡ goes_on action)
      called undefined q h = cc
      called (done m) q h =
          let same : record f { session = s; manager = m; is_open = goes_on action } ≡ f' = cc in
          (
            (
              rw (on_data_events, q) (ap (λ x. done (x.manager)) same),
              ap (λ x. x.logged) (sym same),
            ),
            ap (λ x. x.is_open) (sym same),
          )

  -- A message that leaves the session open was read when it was open, and its data event, if it has one,
  -- was handed to the tables.
  deliver-Told :
      (f f' : Feed T C) (message : Bytes)
      → fed f message ≡ done f'
      → f'.is_open ≡ true
      → Told f (event_in json message) f' × (f.is_open ≡ true)
  unfolding deliver
  deliver-Told f f' message h open_after = elim (Bool-cases f.is_open) [
    | inr closed ↦
        let given : done (record f { is_open = false }) ≡ done f' = rw (deliver, closed) at h in
        let same : record f { is_open = false } ≡ f' = cc in
        let shut : f'.is_open ≡ false = ap (λ x. x.is_open) (sym same) in cc
    | inl opened ↦
        elim (Bool-cases (
          not f.logged
          && logs_message json op_json ticker_from_json candlestick_from_json channels
              f.manager.log_message_cb message)) [
                | inl quiet ↦
                    let given : done (record f { is_open = false }) ≡ done f' =
                      rw (deliver, opened, quiet) at h in
                    let same : record f { is_open = false } ≡ f' = cc in
                    let shut : f'.is_open ≡ false = ap (λ x. x.is_open) (sym same) in cc
                | inr heard ↦
                    let (s, event, action) = on_read json op_json f.session message in
                    elim (Bool-cases (is_lost action)) [
                      | inl lost ↦ cc (rw (deliver, opened, heard, lost) at h)
                      | inr kept ↦
                          let (told, goes) =
                            call_back-Told f f' s event action
                              (rw (deliver, opened, heard, kept) at h) in
                          let same =
                            on_read-event json op_json f.session message
                              (goes_on-reads_on action (sym goes ∙ open_after)) in
                          (subst (λ o. Told f o f') (sym same) told, opened)
                    ]
              ]
  ]

  -- The tables after two sequences of events.
  stored-append :
      (m m' m2 : StreamManager T C) (es es' : List (DataEvent J))
      → stored m es ≡ done m'
      → stored m' es' ≡ done m2
      → stored m (es ++ es') ≡ done m2
  unfolding on_data_events
  stored-append m m' m2 [] es' h k =
      let given : done m ≡ done m' = h in let same : m ≡ m' = cc in ap (λ x. stored x es') same ∙ k
  stored-append m m' m2 (e ∷ es) es' h k =
      let (m1, now, later) =
        on_data_events_cons ticker_from_json candlestick_from_json channels m m' e es
          (on_data_event ticker_from_json candlestick_from_json channels m e) refl h in
      rw (on_data_events, now) (stored-append m1 m' m2 es es' later k)

  pub delivered-stored :
      (f f' : Feed T C) (messages : List Bytes)
      → deliver_all json op_json ticker_from_json candlestick_from_json channels f messages
        ≡ done f'
      → f'.is_open ≡ true
      → (stored f.manager (events_in json messages) ≡ done f'.manager) × (f.is_open ≡ true)
  unfolding deliver_all events_in on_data_events
  delivered-stored f f' [] h o =
      let given : done f ≡ done f' = h in
      let same : f ≡ f' = cc in (ap (λ x. done (x.manager)) same, ap (λ x. x.is_open) same ∙ o)
  delivered-stored f f' (message ∷ messages) h o =
      next (λ f1 k. delivered-stored f1 f' messages k o) (fed f message) refl h
    where
      Later : Feed T C → Type 0
      Later f1 =
          deliver_all json op_json ticker_from_json candlestick_from_json channels f1 messages
            ≡ done f'
          → (stored f1.manager (events_in json messages) ≡ done f'.manager) × (f1.is_open ≡ true)

      next :
          ((f1 : Feed T C) → Later f1)
          → (r : Callback (Feed T C)) → fed f message ≡ r
          → elim r [
            | undefined ↦ undefined
            | done f1 ↦
                deliver_all json op_json ticker_from_json candlestick_from_json channels f1 messages
          ]
            ≡ done f'
          → (stored f.manager (events_in json (message ∷ messages)) ≡ done f'.manager)
            × (f.is_open ≡ true)
      next ih undefined q k = cc
      next ih (done f1) q k =
          let (later, open_between) = ih f1 k in
          let ((now, _), opened) = deliver-Told f f1 message q open_between in
          (
            stored-append f.manager f1.manager f'.manager (list_of json (event_in json message))
                (events_in json messages) now later,
            opened,
          )

  -- From the messages of a session to the tables: when the session still reads on after a sequence of
  -- messages, and no event has ended in undefined behaviour, the lookup of a ticker gives the first ticker
  -- of its instrument that is in the messages and can be read, or what was there before; the lookup of an
  -- instrument and a bar size gives the last candlesticks for these two in the messages, or else what was
  -- there before. No message is lost, whatever control events and other texts stand between them, and
  -- whether a logger is set or not.
  pub deliver_all-registers :
      (f f' : Feed T C) (messages : List Bytes)
      → deliver_all json op_json ticker_from_json candlestick_from_json channels f messages
        ≡ done f'
      → f'.is_open ≡ true
      → ((i : Bytes)
          → lookup_ticker f'.manager i
            ≡ first_ticker
                (readable ticker_from_json)
                (readable candlestick_from_json)
                channels
                i
                (events_in json messages)
                (lookup_ticker f.manager i))
        × ((i : Bytes) (b : BarSize)
            → lookup_candlestick f'.manager i b
              ≡ last_candlestick
                  (readable ticker_from_json)
                  (readable candlestick_from_json)
                  channels
                  i
                  b
                  (events_in json messages)
                  (lookup_candlestick f.manager i b))
  deliver_all-registers f f' messages h o =
      on_data_events-registers ticker_from_json candlestick_from_json channels f.manager f'.manager
        (events_in json messages) (delivered-stored f f' messages h o).0
