-- ===== src/Ws/Streams/Examples.antt =====
-- The tables on small events. A payload is a number, which reads as itself; the channels are named
-- by their bar sizes.
use okx_cpp_api.Prelude.{
  ℕ, suc, ◌≡◌, refl, ◌⊎◌, true, false, Option, none, some, List, [], ◌∷◌, ltb, if◌then◌else◌, Bytes,
  codes, bytes_eq,
}
use okx_cpp_api.Prelude.Int.{ℤ, pos}
use mathlib.Core.Logic.{ite}
use okx_cpp_api.Result.{ok}
use okx_cpp_api.Enums.{bar_size_name, BarSize, candle1_h}
use okx_cpp_api.Enums.Names.{find_name}
use okx_cpp_api.Okx.{candlestick_channel_to_bar_size}
use okx_cpp_api.Ws.Messages.{DataEvent}
use okx_cpp_api.Ws.Streams.{
  wait_loop, fits_int, hundred_times, max_num_tries, find, store_ticker, has_part, store_event,
  readable, StreamManager, done, undefined, on_data_event, on_data_events, lookup_ticker,
  lookup_candlestick, read_event, BarSize-discrete,
}
use okx_cpp_api.Ws.Streams.Tables.{
  on_data_events_stale, on_candlestick_event_lem, on_unknown_channel_undefined,
}
use okx_cpp_api.Ws.Streams.Registers.{first_ticker, last_candlestick}
use okx_cpp_api.Ws.Streams.Defined.{has_stray, on_data_events-defined}
use okx_cpp_api.Ws.Streams.Channels.{channels}
use okx_cpp_api.Ws.Streams.Waiting.{Ended, read_event-Waits}

abbrev event : Bytes → ℕ → DataEvent ℕ
event channel n = record { channel = channel; inst_id = codes "BTC"; payload = n }

abbrev one_ticker : StreamManager ℕ ℕ
one_ticker = record {
  timeout = pos 5;
  tickers = (codes "BTC", 7) ∷ [];
  candlesticks = [];
  log_message_cb = false;
}

-- A first ticker event of 7, then one of 8: the lookup still gives 7.
first_ticker_stays : lookup_ticker one_ticker (codes "BTC") ≡ some 7
unfolding on_data_events on_data_event lookup_ticker store_ticker find
first_ticker_stays =
    on_data_events_stale ok ok channels one_ticker one_ticker (event (codes "tickers") 8 ∷ [])
      (codes "BTC") 7 refl refl

one_hour_candles_kept :
    (m' : StreamManager ℕ ℕ) × (store_event some some channels one_ticker
        (event (codes "candle1H") 9)
      ≡ done m')
    × ((i : Bytes) (b : BarSize)
        → lookup_candlestick m' i b ≡ (
            if bytes_eq (codes "BTC") i
            then ite
                (BarSize-discrete (candlestick_channel_to_bar_size candle1_h) b)
                (some 9)
                (lookup_candlestick one_ticker i b)
            else lookup_candlestick one_ticker i b))
    × ((i : Bytes) → lookup_ticker m' i ≡ lookup_ticker one_ticker i)
unfolding has_part candlestick_channel_to_bar_size bar_size_name find_name
one_hour_candles_kept =
    on_candlestick_event_lem some some channels one_ticker (event (codes "candle1H") 9) 9 candle1_h
      refl refl refl refl

-- OKX has channels of candles in UTC that the enumeration does not name.
utc_candles_undefined :
    store_event some some channels one_ticker (event (codes "candle1Dutc") 9) ≡ undefined
unfolding has_part candlestick_channel_to_bar_size bar_size_name find_name
utc_candles_undefined =
    on_unknown_channel_undefined some some channels one_ticker (event (codes "candle1Dutc") 9) 9
      refl refl refl refl

-- A table that has 4 from the third try on.
abbrev third : ℕ → Option ℕ
third (suc (suc n)) = some 4
third _ = none

-- A timeout of 5 seconds that is set to 0 after the fifth try.
abbrev five_tries : ℕ → ℤ
five_tries n = if ltb n 5 then pos 5 else pos 0

-- Each sleep is a millisecond late.
abbrev one_late : ℕ → ℕ
one_late n = 1

read_event-Waits_example :
    Ended five_tries one_late third (pos 5) (read_event (pos 5) five_tries one_late third)
read_event-Waits_example = read_event-Waits five_tries one_late third (pos 5)

-- Two tries in vain, and two sleeps of 4 ms.
two_sleeps : read_event (pos 5) five_tries one_late third ≡ some (some 4, 2, 8)
unfolding read_event max_num_tries hundred_times fits_int wait_loop
two_sleeps = refl

-- Under the timeout 21474837 the number of tries is no `int`.
long_wait_undefined : read_event (pos 21474837) five_tries one_late third ≡ none
unfolding read_event max_num_tries hundred_times fits_int
long_wait_undefined = refl

-- A ticker, candles on a channel that is named, and candles on one that is not.
abbrev stray_events : List (DataEvent ℕ)
stray_events =
    event (codes "tickers") 8 ∷ event (codes "candle1H") 9 ∷ event (codes "candle1Dutc") 9 ∷ []

on_data_events-defined_example :
    ((has_stray ok ok channels stray_events ≡ true)
      × (on_data_events ok ok channels one_ticker stray_events ≡ undefined))
    ⊎ ((has_stray ok ok channels stray_events ≡ false)
        × (m' : StreamManager ℕ ℕ) × (on_data_events ok ok channels one_ticker stray_events
            ≡ done m')
        × ((i : Bytes)
            → lookup_ticker m' i
              ≡ first_ticker
                  (readable ok)
                  (readable ok)
                  channels
                  i
                  stray_events
                  (lookup_ticker one_ticker i))
        × ((i : Bytes) (b : BarSize)
            → lookup_candlestick m' i b
              ≡ last_candlestick
                  (readable ok)
                  (readable ok)
                  channels
                  i
                  b
                  stray_events
                  (lookup_candlestick one_ticker i b)))
on_data_events-defined_example = on_data_events-defined ok ok channels one_ticker stray_events
