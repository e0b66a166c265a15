-- ===== src/Ws/Streams/Tables.antt =====
-- What data events do to the two tables.
use okx_cpp_api.Prelude.{
  ◌≡◌, refl, sym, ap, ◌∙◌, inl, inr, true, false, Option, none, some, List, [], ◌∷◌, arith,
  if◌then◌else◌, Bool-cases, Option-cases, Bytes, codes, bytes_eq, bytes_eq_iff,
}
use mathlib.Core.Logic.{ite}
use okx_cpp_api.Result.{Result}
use okx_cpp_api.Enums.{BarSize, CandlestickChannel, EnumText}
use okx_cpp_api.Okx.{candlestick_channel_to_bar_size}
use okx_cpp_api.Ws.Messages.{DataEvent}
use okx_cpp_api.Ws.Streams.{
  BarMap, BarSize-discrete, assign_bar, find, insert_or_assign, StreamManager, Callback, done,
  undefined, has_part, store_ticker, store_candlestick, store_event, readable, payload_undefined,
  on_data_event, on_data_events, lookup_ticker, lookup_candlestick,
}

pub find-insert_or_assign :
    {V : Type 0} (k j : Bytes) (v : V) (m : List (Bytes × V))
    → find j (insert_or_assign k v m) ≡ (if bytes_eq k j then some v else find j m)
unfolding find insert_or_assign
find-insert_or_assign k j v [] = refl
find-insert_or_assign k j v ((i, w) ∷ m) =
    ground
      (arith, bytes_eq_iff k j, bytes_eq_iff i k, bytes_eq_iff i j, find-insert_or_assign k j v m)

abbrev pub bars_of : {C : Type 0} → Option (BarMap C) → BarMap C
bars_of none = λ _. none
bars_of (some bars) = bars

pub lookup_candlestick_bars :
    {T C : Type 0} (m : StreamManager T C) (i : Bytes) (b : BarSize)
    → lookup_candlestick m i b ≡ bars_of (find i m.candlesticks) b
unfolding lookup_candlestick
lookup_candlestick_bars m i b = elim (Option-cases (find i m.candlesticks)) [
  | inl e ↦ rw (e, lookup_candlestick, bars_of)
  | inr (bars, e) ↦ rw (e, lookup_candlestick, bars_of)
]

-- The bars of one table, with one more stored.
bars_of_stored :
    {C : Type 0} (m : List (Bytes × BarMap C)) (inst_id i : Bytes) (a b : BarSize) (c : C)
    → bars_of (find i (insert_or_assign inst_id (assign_bar a c (bars_of (find inst_id m))) m)) b
      ≡ (if bytes_eq inst_id i
          then ite (BarSize-discrete a b) (some c) (bars_of (find i m) b)
          else bars_of (find i m) b)
unfolding assign_bar
bars_of_stored m inst_id i a b c = elim (Bool-cases (bytes_eq inst_id i)) [
  | inl h ↦
      let e = (bytes_eq_iff inst_id i).0 h in
      rw (find-insert_or_assign inst_id i (assign_bar a c (bars_of (find inst_id m))) m, h)
        (ap (λ k. ite (BarSize-discrete a b) (some c) (bars_of (find k m) b)) e)
  | inr h ↦ rw (find-insert_or_assign inst_id i (assign_bar a c (bars_of (find inst_id m))) m, h)
]

module _ {J T C : Type 0} (ticker_from_json : J → Option T) (candlestick_from_json : J → Option C)
    (channels : EnumText CandlestickChannel) where
  pub store_candlestick-tickers :
      (m m' : StreamManager T C) (channel inst_id : Bytes) (c : Option C)
      → store_candlestick ticker_from_json candlestick_from_json channels m channel inst_id c
        ≡ done m'
      → m'.tickers ≡ m.tickers
  unfolding store_candlestick
  store_candlestick-tickers m m' channel inst_id none e = ground arith
  store_candlestick-tickers m m' channel inst_id (some c) e =
      elim (Option-cases (channels.enum_cast channel)) [
        | inl n ↦ cc (rw (n, store_candlestick) at e)
        | inr (k, n) ↦ ground arith
      ]

  store_named :
      (m : StreamManager T C) (channel inst_id : Bytes) (c : C) (k : CandlestickChannel)
      → channels.enum_cast channel ≡ some k
      → store_candlestick ticker_from_json candlestick_from_json channels m channel inst_id (some c)
        ≡ done (record m {
          candlesticks =
              insert_or_assign inst_id
                (assign_bar
                  (candlestick_channel_to_bar_size k)
                  c
                  (bars_of (find inst_id m.candlesticks)))
                m.candlesticks;
        })
  unfolding store_candlestick
  store_named m channel inst_id c k e = elim (Option-cases (find inst_id m.candlesticks)) [
    | inl n ↦ rw (e, n, store_candlestick, bars_of)
    | inr (bars, n) ↦ rw (e, n, store_candlestick, bars_of)
  ]

  store_ticker_keeps :
      (m : StreamManager T C) (i inst_id : Bytes) (t : T) (o : Option T)
      → find i m.tickers ≡ some t
      → find i (store_ticker ticker_from_json candlestick_from_json channels m inst_id o).tickers
        ≡ some t
  unfolding store_ticker
  store_ticker_keeps m i inst_id t none h = h
  store_ticker_keeps m i inst_id t (some u) h =
      ground (arith, bytes_eq_iff inst_id i, find-insert_or_assign inst_id i u m.tickers)

  store_event_keeps :
      (m m' : StreamManager T C) (e : DataEvent J) (i : Bytes) (t : T)
      → store_event ticker_from_json candlestick_from_json channels m e ≡ done m'
      → lookup_ticker m i ≡ some t
      → lookup_ticker m' i ≡ some t
  unfolding store_event lookup_ticker
  store_event_keeps m m' e i t h k = ground (
    arith,
    store_ticker_keeps m i e.inst_id t (ticker_from_json e.payload) k,
    store_candlestick-tickers m m' e.channel e.inst_id (candlestick_from_json e.payload),
  )

  -- A candlestick event on a channel that names a bar size stores its candlesticks: the lookup of its
  -- instrument and bar size gives them, whatever was there, and every other lookup of candlesticks,
  -- and every lookup of a ticker, gives what it gave before.
  pub on_candlestick_event_lem :
      (m : StreamManager T C) (e : DataEvent J) (c : C) (k : CandlestickChannel)
      → bytes_eq e.channel (codes "tickers") ≡ false
      → has_part (codes "candle") e.channel ≡ true
      → candlestick_from_json e.payload ≡ some c
      → channels.enum_cast e.channel ≡ some k
      → (m' : StreamManager T C) × (store_event ticker_from_json candlestick_from_json channels m e
          ≡ done m')
        × ((i : Bytes) (b : BarSize)
            → lookup_candlestick m' i b ≡ (
                if bytes_eq e.inst_id i
                then ite
                    (BarSize-discrete (candlestick_channel_to_bar_size k) b)
                    (some c)
                    (lookup_candlestick m i b)
                else lookup_candlestick m i b))
        × ((i : Bytes) → lookup_ticker m' i ≡ lookup_ticker m i)
  unfolding store_event lookup_ticker
  on_candlestick_event_lem m e c k not_ticker candle read named =
      let bars = bars_of (find e.inst_id m.candlesticks) in
      let bar_size = candlestick_channel_to_bar_size k in
      let stored = insert_or_assign e.inst_id (assign_bar bar_size c bars) m.candlesticks in
      (
        record m { candlesticks = stored },
        rw (not_ticker, candle, read) (store_named m e.channel e.inst_id c k named),
        λ i b.
            lookup_candlestick_bars (record m { candlesticks = stored }) i b
            ∙ (bars_of_stored m.candlesticks e.inst_id i bar_size b c
                ∙ ap
                    (λ l.
                      if bytes_eq e.inst_id i
                      then ite (BarSize-discrete bar_size b) (some c) l
                      else l)
                    (sym (lookup_candlestick_bars m i b))),
        λ i. refl,
      )

  -- A candlestick event that can be read, on a channel whose text has "candle" in it and names no
  -- `CandlestickChannel`, ends the callback in undefined behaviour.
  pub on_unknown_channel_undefined :
      (m : StreamManager T C) (e : DataEvent J) (c : C)
      → bytes_eq e.channel (codes "tickers") ≡ false
      → has_part (codes "candle") e.channel ≡ true
      → candlestick_from_json e.payload ≡ some c
      → channels.enum_cast e.channel ≡ none
      → store_event ticker_from_json candlestick_from_json channels m e ≡ undefined
  unfolding store_event store_candlestick
  on_unknown_channel_undefined m e c not_ticker candle read unnamed =
      rw (not_ticker, candle, read, unnamed, store_candlestick)

module _ {J T C : Type 0} (ticker_from_json : J → Result T) (candlestick_from_json : J → Result C)
    (channels : EnumText CandlestickChannel) where
  pub on_data_event-store_event :
      (m m' : StreamManager T C) (e : DataEvent J)
      → on_data_event ticker_from_json candlestick_from_json channels m e ≡ done m'
      → store_event (readable ticker_from_json) (readable candlestick_from_json) channels m e
        ≡ done m'
  unfolding on_data_event
  on_data_event-store_event m m' e h =
      elim (Bool-cases (payload_undefined ticker_from_json candlestick_from_json channels e)) [
        | inl u ↦ cc (rw (u, on_data_event) at h)
        | inr u ↦ rw (u, on_data_event) at h
      ]

  pub on_data_events_cons :
      (m m' : StreamManager T C) (e : DataEvent J) (es : List (DataEvent J))
      (r : Callback (StreamManager T C))
      → on_data_event ticker_from_json candlestick_from_json channels m e ≡ r
      → on_data_events ticker_from_json candlestick_from_json channels m (e ∷ es) ≡ done m'
      → (m1 : StreamManager T C) × (on_data_event ticker_from_json candlestick_from_json channels m
            e
          ≡ done m1)
        × (on_data_events ticker_from_json candlestick_from_json channels m1 es ≡ done m')
  unfolding on_data_events
  on_data_events_cons m m' e es undefined q h = cc (rw (q, on_data_events) at h)
  on_data_events_cons m m' e es (done m1) q h = (m1, q, rw (q, on_data_events) at h)

  -- The first ticker event of an instrument is the one that is read for ever: once a ticker event
  -- of it is stored, no sequence of data events, ticker events of the same instrument included,
  -- changes what the lookup gives.
  pub on_data_events_stale :
      (m m' : StreamManager T C) (es : List (DataEvent J)) (i : Bytes) (t : T)
      → on_data_events ticker_from_json candlestick_from_json channels m es ≡ done m'
      → lookup_ticker m i ≡ some t
      → lookup_ticker m' i ≡ some t
  unfolding on_data_events
  on_data_events_stale m m' [] i t h k = cc
  on_data_events_stale m m' (e ∷ es) i t h k =
      let (m1, first, rest) =
        on_data_events_cons m m' e es
          (on_data_event ticker_from_json candlestick_from_json channels m e) refl h in
      on_data_events_stale m1 m' es i t rest (
        store_event_keeps (readable ticker_from_json) (readable candlestick_from_json) channels m m1
          e i t (on_data_event-store_event m m1 e first) k)
