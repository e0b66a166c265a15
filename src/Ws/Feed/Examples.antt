-- ===== src/Ws/Feed/Examples.antt =====
-- Feeds over the packed JSON of the examples, without a logger. A payload reads as its length, but for an
-- empty one, which does not read.
use okx_cpp_api.Prelude.{
  ℕ, zero, suc, ◌≡◌, refl, inl, true, false, List, [], ◌∷◌, length, All, Bytes, codes,
}
use okx_cpp_api.Prelude.Int.{ℤ, pos}
use okx_cpp_api.Result.{Result, ok, err, foreign, ends_undefined}
use okx_cpp_api.Enums.{BarSize, OperationType}
use okx_cpp_api.Json.Packed.{packed}
use okx_cpp_api.Ws.Messages.{data_event_from_json}
use okx_cpp_api.Ws.Session.{
  new_session, on_read, handle_message, next_action, read_subscription_request,
}
use okx_cpp_api.Ws.Session.Heard.{event_of, event_in, events_in}
use okx_cpp_api.Ws.Streams.{
  new_stream_manager, done, readable, payload_undefined, store_event, on_data_event, store_ticker,
  find, insert_or_assign, has_part, starts_with, lookup_ticker, lookup_candlestick, read_event,
}
use okx_cpp_api.Ws.Streams.Channels.{channels}
use okx_cpp_api.Ws.Streams.Registers.{first_ticker, last_candlestick}
use okx_cpp_api.Ws.Streams.Waiting.{Ended}
use okx_cpp_api.Ws.Feed.{Feed, logs_event, logs_message, goes_on, call_back, deliver, deliver_all}
use okx_cpp_api.Ws.Feed.Open.{IsHandled, deliver_all-handled}
use okx_cpp_api.Ws.Streams.Defined.{has_stray, is_stray, is_unnamed}
use okx_cpp_api.Ws.Feed.Delivery.{deliver_all-registers}
use okx_cpp_api.Ws.Feed.Reading.{ticker_said, candlestick_said, read_event-interleaved}

abbrev op_text : OperationType → Bytes
op_text op = []

abbrev ticker_of : Bytes → Result ℕ
ticker_of [] = err (foreign [])
ticker_of (c ∷ s) = ok (length (c ∷ s))

abbrev no_candles : Bytes → Result ℕ
no_candles s = err (foreign [])

abbrev message : Bytes → Bytes
message payload = packed.object (
    (
      codes "arg",
      packed.object ((codes "channel", codes "tickers") ∷ (codes "instId", codes "BTC") ∷ []),
    )
    ∷ (codes "data", payload)
    ∷ [])

abbrev first : Feed ℕ ℕ
first = record {
  session = record new_session { subscriptions = codes "s" ∷ [] };
  manager = new_stream_manager;
  logged = false;
  is_open = true;
}

abbrev filled : Feed ℕ ℕ
filled = record first { manager = record (first.manager) { tickers = (codes "BTC", 2) ∷ [] } }

abbrev two_messages : List Bytes
two_messages = message (codes "xy") ∷ message (codes "xyz") ∷ []

two_tickers_registers :
    ((i : Bytes)
      → lookup_ticker filled.manager i
        ≡ first_ticker
            (readable ticker_of)
            (readable no_candles)
            channels
            i
            (events_in packed two_messages)
            (lookup_ticker first.manager i))
    × ((i : Bytes) (b : BarSize)
        → lookup_candlestick filled.manager i b
          ≡ last_candlestick
              (readable ticker_of)
              (readable no_candles)
              channels
              i
              b
              (events_in packed two_messages)
              (lookup_candlestick first.manager i b))
unfolding deliver_all deliver logs_message logs_event goes_on call_back on_read handle_message
    next_action read_subscription_request data_event_from_json on_data_event payload_undefined
    store_event store_ticker find insert_or_assign has_part starts_with
two_tickers_registers =
    deliver_all-registers packed op_text ticker_of no_candles channels first filled two_messages
      refl refl

-- The first message comes in between the first try and the second.
abbrev once : ℕ → List Bytes
once zero = message (codes "xy") ∷ []
once (suc n) = []

abbrev stages : ℕ → Feed ℕ ℕ
stages zero = first
stages (suc n) = filled

turns :
    (i : ℕ)
    → deliver_all packed op_text ticker_of no_candles channels (stages i) (once i)
      ≡ done (stages (suc i))
unfolding deliver_all deliver logs_message logs_event goes_on call_back on_read handle_message
    next_action read_subscription_request data_event_from_json on_data_event payload_undefined
    store_event store_ticker find insert_or_assign has_part starts_with
turns zero = refl
turns (suc n) = refl

stays_open : (i : ℕ) → (stages i).is_open ≡ true
stays_open zero = refl
stays_open (suc n) = refl

-- The sleeps are not late.
abbrev no_late : ℕ → ℕ
no_late n = 0

abbrev five : ℕ → ℤ
five n = pos 5

read_event-interleaved_example :
    Ended five no_late
      (ticker_said packed op_text ticker_of no_candles channels stages once turns stays_open
        (codes "BTC"))
      (pos 5)
      (read_event (pos 5) five no_late (λ i. lookup_ticker (stages i).manager (codes "BTC")))
    × Ended five no_late
        (candlestick_said packed op_text ticker_of no_candles channels stages once turns stays_open
          (codes "BTC")
          BarSize._1m)
        (pos 5)
        (read_event
          (pos 5)
          five
          no_late
          (λ i. lookup_candlestick (stages i).manager (codes "BTC") BarSize._1m))
read_event-interleaved_example =
    read_event-interleaved packed op_text ticker_of no_candles channels stages once turns stays_open
      five no_late (pos 5) (codes "BTC") BarSize._1m

-- With a logger, a payload that is no ticker is passed over.
abbrev logged_first : Feed ℕ ℕ
logged_first = record first { logged = true }

abbrev with_empty : List Bytes
with_empty = message [] ∷ two_messages

All-IsHandled : All (IsHandled packed op_text ticker_of no_candles channels) with_empty
unfolding ends_undefined data_event_from_json
All-IsHandled =
    ((_, refl, inl (refl, refl)), ((_, refl, inl (refl, refl)), ((_, refl, inl (refl, refl)), tt)))

deliver_all-handled_example :
    (f' : Feed ℕ ℕ) × (deliver_all packed op_text ticker_of no_candles channels logged_first
        with_empty
      ≡ done f')
    × (f'.is_open ≡ true)
    × ((i : Bytes)
        → lookup_ticker f'.manager i
          ≡ first_ticker
              (readable ticker_of)
              (readable no_candles)
              channels
              i
              (events_in packed with_empty)
              (lookup_ticker logged_first.manager i))
    × ((i : Bytes) (b : BarSize)
        → lookup_candlestick f'.manager i b
          ≡ last_candlestick
              (readable ticker_of)
              (readable no_candles)
              channels
              i
              b
              (events_in packed with_empty)
              (lookup_candlestick logged_first.manager i b))
unfolding has_stray is_stray is_unnamed payload_undefined has_part starts_with events_in event_in
    event_of data_event_from_json
deliver_all-handled_example =
    deliver_all-handled packed op_text ticker_of no_candles channels logged_first with_empty refl
      refl refl refl All-IsHandled refl
