-- ===== src/Ws/Streams/Defined.antt =====
-- When the callback is defined, and what the tables hold when it is.
use okx_cpp_api.Prelude.{
  subst, ◌≡◌, refl, ◌⊎◌, inl, inr, Bool, true, false, not, ◌&&◌, ◌||◌, Option, none, some, List, [],
  ◌∷◌, Bool-cases, Bytes, codes, bytes_eq,
}
use okx_cpp_api.Result.{Result}
use okx_cpp_api.Enums.{BarSize, CandlestickChannel, EnumText}
use okx_cpp_api.Ws.Messages.{DataEvent}
use okx_cpp_api.Ws.Streams.{
  StreamManager, Callback, done, undefined, has_part, store_candlestick, store_event, readable,
  payload_undefined, on_data_event, on_data_events, lookup_ticker, lookup_candlestick,
}
use okx_cpp_api.Ws.Streams.Registers.{first_ticker, last_candlestick, on_data_events-registers}

abbrev is_some : {A : Type 0} → Option A → Bool
is_some none = false
is_some (some a) = true

-- How a callback ends, by a test.
abbrev pub Ends : {S : Type 0} → Bool → Callback S → Type 0
Ends true r = r ≡ undefined
Ends {S} false r = (m : S) × (r ≡ done m)

module _ {J T C : Type 0} (ticker_from_json : J → Option T) (candlestick_from_json : J → Option C)
    (channels : EnumText CandlestickChannel) where
  -- Candlesticks that can be read, on a channel that names no `CandlestickChannel`.
  unfoldable pub is_unnamed : DataEvent J → Bool
  is_unnamed e =
      not (bytes_eq e.channel (codes "tickers"))
      && (has_part (codes "candle") e.channel
          && (not (is_some (channels.enum_cast e.channel))
              && is_some (candlestick_from_json e.payload)))

  store-Ends :
      (m : StreamManager T C) (channel inst_id : Bytes) (named : Option CandlestickChannel)
      (read : Option C)
      → channels.enum_cast channel ≡ named
      → Ends
          (not (is_some named) && is_some read)
          (store_candlestick ticker_from_json candlestick_from_json channels m channel inst_id read)
  unfolding store_candlestick
  store-Ends m channel inst_id none none q = (_, refl)
  store-Ends m channel inst_id (some c) none q = (_, refl)
  store-Ends m channel inst_id none (some candlestick) q = rw (store_candlestick, q) refl
  store-Ends m channel inst_id (some c) (some candlestick) q = rw (store_candlestick, q) (_, refl)

  store_event-Ends :
      (m : StreamManager T C) (e : DataEvent J)
      → Ends (is_unnamed e) (store_event ticker_from_json candlestick_from_json channels m e)
  unfolding store_event is_unnamed
  store_event-Ends m e = elim (Bool-cases (bytes_eq e.channel (codes "tickers"))) [
    | inl t ↦ rw (t, store_event, is_unnamed) (_, refl)
    | inr t ↦ elim (Bool-cases (has_part (codes "candle") e.channel)) [
      | inr h ↦ rw (t, h, store_event, is_unnamed) (_, refl)
      | inl h ↦
          rw (t, h, store_event, is_unnamed)
            (store-Ends m e.channel e.inst_id (channels.enum_cast e.channel)
              (candlestick_from_json e.payload) refl)
    ]
  ]

module _ {J T C : Type 0} (ticker_from_json : J → Result T) (candlestick_from_json : J → Result C)
    (channels : EnumText CandlestickChannel) where
  -- An event that is undefined behaviour: when its payload is read, or as above.
  unfoldable pub is_stray : DataEvent J → Bool
  unfolding payload_undefined is_unnamed
  is_stray e =
      payload_undefined ticker_from_json candlestick_from_json channels e
      || is_unnamed (readable ticker_from_json) (readable candlestick_from_json) channels e

  abbrev step : StreamManager T C → DataEvent J → Callback (StreamManager T C)
  step = on_data_event ticker_from_json candlestick_from_json channels

  abbrev steps : StreamManager T C → List (DataEvent J) → Callback (StreamManager T C)
  steps = on_data_events ticker_from_json candlestick_from_json channels

  pub step-Ends : (m : StreamManager T C) (e : DataEvent J) → Ends (is_stray e) (step m e)
  unfolding on_data_event is_stray
  step-Ends m e =
      elim (Bool-cases (payload_undefined ticker_from_json candlestick_from_json channels e)) [
        | inl u ↦ rw (u, on_data_event, is_stray) refl
        | inr u ↦
            rw (u, on_data_event, is_stray)
              (store_event-Ends (readable ticker_from_json) (readable candlestick_from_json)
                channels m e)
      ]

  unfoldable pub has_stray : List (DataEvent J) → Bool
  has_stray [] = false
  has_stray (e ∷ es) = is_stray e || has_stray es

  steps-Ends : (m : StreamManager T C) (es : List (DataEvent J)) → Ends (has_stray es) (steps m es)
  unfolding on_data_events has_stray
  steps-Ends m [] = (m, refl)
  steps-Ends m (e ∷ es) = elim (Bool-cases (is_stray e)) [
    | inl h ↦
        let bad : step m e ≡ undefined = subst (λ b. Ends b (step m e)) h (step-Ends m e) in
        rw (has_stray, h, on_data_events, bad) refl
    | inr h ↦
        let (m1, now) = subst (λ b. Ends b (step m e)) h (step-Ends m e) in
        rw (has_stray, h, on_data_events, now) (steps-Ends m1 es)
  ]

  -- A sequence of events is undefined behaviour just when the reading of the payload of one of
  -- them is, as a ticker or as candlesticks, whichever its channel asks for, or when one of them brings
  -- candlesticks that can be read, on a channel whose text has "candle" in it and names no
  -- `CandlestickChannel`, whatever the tables hold. Otherwise it ends with tables that are registers: the lookup of a ticker gives the first
  -- ticker event of its instrument that could be read, in the sequence of all events, or what was there
  -- before them; the lookup of an instrument and a bar size gives the last candlestick event for these two
  -- that could be read, or else what was there before.
  pub on_data_events-defined :
      (m : StreamManager T C) (es : List (DataEvent J))
      → ((has_stray es ≡ true) × (steps m es ≡ undefined))
        ⊎ ((has_stray es ≡ false)
            × (m' : StreamManager T C) × (steps m es ≡ done m')
            × ((i : Bytes)
                → lookup_ticker m' i
                  ≡ first_ticker
                      (readable ticker_from_json)
                      (readable candlestick_from_json)
                      channels
                      i
                      es
                      (lookup_ticker m i))
            × ((i : Bytes) (b : BarSize)
                → lookup_candlestick m' i b
                  ≡ last_candlestick
                      (readable ticker_from_json)
                      (readable candlestick_from_json)
                      channels
                      i
                      b
                      es
                      (lookup_candlestick m i b)))
  on_data_events-defined m es = elim (Bool-cases (has_stray es)) [
    | inl h ↦ inl (h, subst (λ b. Ends b (steps m es)) h (steps-Ends m es))
    | inr h ↦
        let (m', ended) = subst (λ b. Ends b (steps m es)) h (steps-Ends m es) in
        let (tickers, candlesticks) =
          on_data_events-registers ticker_from_json candlestick_from_json channels m m' es ended in
        inr (h, m', ended, tickers, candlesticks)
  ]
