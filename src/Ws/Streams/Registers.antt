-- ===== src/Ws/Streams/Registers.antt =====
-- The two tables as registers, one for each instrument, and for each instrument and bar size.
use okx_cpp_api.Prelude.{
  ◌≡◌, refl, sym, ap, ◌∙◌, inl, inr, true, false, Option, none, some, List, [], ◌∷◌, arith,
  if◌then◌else◌, Bool-cases, Option-cases, Bytes, codes, bytes_eq, bytes_eq_iff,
}
use mathlib.Core.Logic.{ite}
use okx_cpp_api.Result.{Result}
use okx_cpp_api.Enums.{BarSize, CandlestickChannel, EnumText}
use okx_cpp_api.Okx.{candlestick_channel_to_bar_size}
use okx_cpp_api.Ws.Messages.{DataEvent}
use okx_cpp_api.Ws.Streams.{
  BarSize-discrete, find, StreamManager, Callback, done, has_part, store_ticker, store_candlestick,
  store_event, readable, on_data_event, on_data_events, lookup_ticker, lookup_candlestick,
}
use okx_cpp_api.Ws.Streams.Tables.{
  bars_of, lookup_candlestick_bars, store_candlestick-tickers, find-insert_or_assign,
  on_data_events_cons, on_data_event-store_event, on_candlestick_event_lem,
  on_unknown_channel_undefined,
}

module _ {J T C : Type 0} (ticker_from_json : J → Option T) (candlestick_from_json : J → Option C)
    (channels : EnumText CandlestickChannel) where
  -- What an event is for the tables: a ticker, or candlesticks of a bar size.
  abbrev pub ticker_of : DataEvent J → Option T
  ticker_of e = if bytes_eq e.channel (codes "tickers") then ticker_from_json e.payload else none

  abbrev pub candlestick_of : DataEvent J → Option (BarSize × C)
  candlestick_of e =
      if bytes_eq e.channel (codes "tickers")
      then none
      else if has_part (codes "candle") e.channel
      then (elim (candlestick_from_json e.payload) [
        | none ↦ none
        | some c ↦ elim (channels.enum_cast e.channel) [
          | none ↦ none
          | some k ↦ some (candlestick_channel_to_bar_size k, c)
        ]
      ])
      else none

  -- A register that keeps the first value that it is given.
  abbrev put_first : Bytes → Bytes → Option T → Option T → Option T
  put_first i inst_id o (some t) = some t
  put_first i inst_id o none = if bytes_eq inst_id i then o else none

  abbrev pub keep_first : Bytes → DataEvent J → Option T → Option T
  keep_first i e old = put_first i e.inst_id (ticker_of e) old

  -- A register that keeps the last value that it is given.
  abbrev put_last : Bytes → BarSize → Bytes → Option (BarSize × C) → Option C → Option C
  put_last i b inst_id none old = old
  put_last i b inst_id (some (a, c)) old =
      if bytes_eq inst_id i then ite (BarSize-discrete a b) (some c) old else old

  abbrev pub keep_last : Bytes → BarSize → DataEvent J → Option C → Option C
  keep_last i b e old = put_last i b e.inst_id (candlestick_of e) old

  -- The registers after a sequence of events.
  pub first_ticker : Bytes → List (DataEvent J) → Option T → Option T
  first_ticker i [] old = old
  first_ticker i (e ∷ es) old = first_ticker i es (keep_first i e old)

  pub last_candlestick : Bytes → BarSize → List (DataEvent J) → Option C → Option C
  last_candlestick i b [] old = old
  last_candlestick i b (e ∷ es) old = last_candlestick i b es (keep_last i b e old)

  abbrev step : StreamManager T C → DataEvent J → Callback (StreamManager T C)
  step = store_event ticker_from_json candlestick_from_json channels

  store_ticker-candlesticks :
      (m : StreamManager T C) (inst_id : Bytes) (o : Option T)
      → (store_ticker ticker_from_json candlestick_from_json channels m inst_id o).candlesticks
        ≡ m.candlesticks
  unfolding store_ticker
  store_ticker-candlesticks m inst_id none = refl
  store_ticker-candlesticks m inst_id (some t) = elim (Option-cases (find inst_id m.tickers)) [
    | inl e ↦ rw (e, store_ticker)
    | inr (u, e) ↦ rw (e, store_ticker)
  ]

  find-store_ticker :
      (m : StreamManager T C) (inst_id i : Bytes) (o : Option T)
      → find i (store_ticker ticker_from_json candlestick_from_json channels m inst_id o).tickers
        ≡ put_first i inst_id o (find i m.tickers)
  unfolding store_ticker
  find-store_ticker m inst_id i none = ground arith
  find-store_ticker m inst_id i (some t) =
      ground (arith, bytes_eq_iff inst_id i, find-insert_or_assign inst_id i t m.tickers)

  put_first-none : (i inst_id : Bytes) (old : Option T) → old ≡ put_first i inst_id none old
  put_first-none i inst_id none = ground arith
  put_first-none i inst_id (some t) = refl

  keep_first-step :
      (m m' : StreamManager T C) (e : DataEvent J) (i : Bytes)
      → step m e ≡ done m'
      → lookup_ticker m' i ≡ keep_first i e (lookup_ticker m i)
  unfolding store_event lookup_ticker
  keep_first-step m m' e i h = elim (Bool-cases (bytes_eq e.channel (codes "tickers"))) [
    | inl y ↦
        let o = ticker_from_json e.payload in
        let given : done
              (store_ticker ticker_from_json candlestick_from_json channels m e.inst_id o)
            ≡ done m' =
          rw y at h in
        let same : store_ticker ticker_from_json candlestick_from_json channels m e.inst_id o ≡ m' =
          cc in
        let read : ticker_of e ≡ o = rw y in
        ap (λ x. find i x.tickers) (sym same)
        ∙ (find-store_ticker m e.inst_id i o
            ∙ ap (λ x. put_first i e.inst_id x (find i m.tickers)) (sym read))
    | inr n ↦
        let none_read : ticker_of e ≡ none = rw n in
        let kept : m'.tickers ≡ m.tickers = ground (
          arith,
          store_candlestick-tickers ticker_from_json candlestick_from_json channels m m' e.channel
              e.inst_id (candlestick_from_json e.payload),
        ) in
        ap (find i) kept
        ∙ (put_first-none i e.inst_id (find i m.tickers)
            ∙ ap (λ x. put_first i e.inst_id x (find i m.tickers)) (sym none_read))
  ]

  same_table :
      (m m' : StreamManager T C) (i : Bytes) (b : BarSize)
      → m'.candlesticks ≡ m.candlesticks
      → lookup_candlestick m' i b ≡ lookup_candlestick m i b
  same_table m m' i b e =
      lookup_candlestick_bars m' i b
      ∙ (ap (λ l. bars_of (find i l) b) e ∙ sym (lookup_candlestick_bars m i b))

  ticker_step :
      (m m' : StreamManager T C) (e : DataEvent J)
      → bytes_eq e.channel (codes "tickers") ≡ true
      → step m e ≡ done m'
      → m'.candlesticks ≡ m.candlesticks
  unfolding store_event
  ticker_step m m' e y h =
      let o = ticker_from_json e.payload in
      let given : done (store_ticker ticker_from_json candlestick_from_json channels m e.inst_id o)
          ≡ done m' =
        rw y at h in
      let same : store_ticker ticker_from_json candlestick_from_json channels m e.inst_id o ≡ m' =
        cc in
      ap (λ x. x.candlesticks) (sym same) ∙ store_ticker-candlesticks m e.inst_id o

  other_step :
      (m m' : StreamManager T C) (e : DataEvent J)
      → bytes_eq e.channel (codes "tickers") ≡ false
      → has_part (codes "candle") e.channel ≡ false
      → step m e ≡ done m'
      → m ≡ m'
  unfolding store_event
  other_step m m' e n k h = let given : done m ≡ done m' = rw (n, k) at h in cc

  unread_step :
      (m m' : StreamManager T C) (e : DataEvent J)
      → bytes_eq e.channel (codes "tickers") ≡ false
      → has_part (codes "candle") e.channel ≡ true
      → candlestick_from_json e.payload ≡ none
      → step m e ≡ done m'
      → m ≡ m'
  unfolding store_event store_candlestick
  unread_step m m' e n k o h = let given : done m ≡ done m' = rw (n, k, o) at h in cc

  keep_last-step :
      (m m' : StreamManager T C) (e : DataEvent J) (i : Bytes) (b : BarSize)
      → step m e ≡ done m'
      → lookup_candlestick m' i b ≡ keep_last i b e (lookup_candlestick m i b)
  keep_last-step m m' e i b h = elim (Bool-cases (bytes_eq e.channel (codes "tickers"))) [
    | inl y ↦
        let read : candlestick_of e ≡ none = rw y in
        same_table m m' i b (ticker_step m m' e y h)
        ∙ ap (λ x. put_last i b e.inst_id x (lookup_candlestick m i b)) (sym read)
    | inr n ↦ elim (Bool-cases (has_part (codes "candle") e.channel)) [
      | inr k ↦
          let read : candlestick_of e ≡ none = rw (n, k) in
          ap (λ x. lookup_candlestick x i b) (sym (other_step m m' e n k h))
          ∙ ap (λ x. put_last i b e.inst_id x (lookup_candlestick m i b)) (sym read)
      | inl k ↦ elim (Option-cases (candlestick_from_json e.payload)) [
        | inl o ↦
            let read : candlestick_of e ≡ none = rw (n, k, o) in
            ap (λ x. lookup_candlestick x i b) (sym (unread_step m m' e n k o h))
            ∙ ap (λ x. put_last i b e.inst_id x (lookup_candlestick m i b)) (sym read)
        | inr (c, o) ↦ elim (Option-cases (channels.enum_cast e.channel)) [
          | inl u ↦ cc (
              on_unknown_channel_undefined ticker_from_json candlestick_from_json channels m e c n k
                o u)
          | inr (channel, u) ↦
              let (m1, first, looked, kept) =
                on_candlestick_event_lem ticker_from_json candlestick_from_json channels m e c
                  channel n k o u in
              let given : done m1 ≡ done m' = sym first ∙ h in
              let same : m1 ≡ m' = cc in
              let read : candlestick_of e ≡ some (candlestick_channel_to_bar_size channel, c) =
                rw (n, k, o, u) in
              ap (λ x. lookup_candlestick x i b) (sym same)
              ∙ (looked i b
                  ∙ ap (λ x. put_last i b e.inst_id x (lookup_candlestick m i b)) (sym read))
        ]
      ]
    ]
  ]

module _ {J T C : Type 0} (ticker_from_json : J → Result T) (candlestick_from_json : J → Result C)
    (channels : EnumText CandlestickChannel) where
  abbrev said_ticker : Bytes → List (DataEvent J) → Option T → Option T
  said_ticker = first_ticker (readable ticker_from_json) (readable candlestick_from_json) channels

  abbrev said_candlestick : Bytes → BarSize → List (DataEvent J) → Option C → Option C
  said_candlestick =
      last_candlestick (readable ticker_from_json) (readable candlestick_from_json) channels

  -- As long as no event ends in undefined behaviour, the two tables are registers: the lookup of a
  -- ticker gives the first ticker event of its instrument that could be read, in the sequence of all
  -- events, or what was there before them; the lookup of an instrument and a bar size gives the last
  -- candlestick event for these two that could be read, or else what was there before.
  pub on_data_events-registers :
      (m m' : StreamManager T C) (es : List (DataEvent J))
      → on_data_events ticker_from_json candlestick_from_json channels m es ≡ done m'
      → ((i : Bytes) → lookup_ticker m' i ≡ said_ticker i es (lookup_ticker m i))
        × ((i : Bytes) (b : BarSize)
            → lookup_candlestick m' i b ≡ said_candlestick i b es (lookup_candlestick m i b))
  unfolding on_data_events first_ticker last_candlestick
  on_data_events-registers m m' [] h =
      let given : done m ≡ done m' = h in
      let same : m ≡ m' = cc in
      (
        λ i. ap (λ x. lookup_ticker x i) (sym same),
        λ i b. ap (λ x. lookup_candlestick x i b) (sym same),
      )
  on_data_events-registers m m' (e ∷ es) h =
      let (m1, now, later) =
        on_data_events_cons ticker_from_json candlestick_from_json channels m m' e es
          (on_data_event ticker_from_json candlestick_from_json channels m e) refl h in
      let stored =
        on_data_event-store_event ticker_from_json candlestick_from_json channels m m1 e now in
      let (tickers, candlesticks) = on_data_events-registers m1 m' es later in
      (
        λ i.
            tickers i
            ∙ ap (said_ticker i es) (
                keep_first-step (readable ticker_from_json) (readable candlestick_from_json)
                  channels m m1 e i stored),
        λ i b.
            candlesticks i b
            ∙ ap (said_candlestick i b es) (
                keep_last-step (readable ticker_from_json) (readable candlestick_from_json) channels
                  m m1 e i b stored),
      )
