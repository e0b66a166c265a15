-- ===== src/Models/Market.antt =====
-- src/okx_models.cpp: tickers, candles, funding rates and the time of the exchange.
use okx_cpp_api.Prelude.{
  none, some, get_elem?, ℕ, false, not, List, [], ◌∷◌, if◌then◌else◌, Bytes, codes,
}
use okx_cpp_api.Prelude.Int.{ℤ, zero_ℤ}
use okx_cpp_api.Result.{Result, ok, err, undefined, foreign, ◌>>=◌}
use okx_cpp_api.Enums.{InstrumentType}
use okx_cpp_api.Models.{Candle, FundingRate, new_funding_rate}
use okx_cpp_api.Models.Base.{
  ModelJson, Response, Listing, read_decimal, decimal_of, response_from_json, listing_from_json,
}

pub record Ticker (D : Type 0) : Type 0 where
  pub inst_type : InstrumentType
  pub inst_id : Bytes
  pub last : D
  pub last_sz : D
  pub ask_px : D
  pub ask_sz : D
  pub bid_px : D
  pub bid_sz : D
  pub open24h : D
  pub high24h : D
  pub low24h : D
  pub vol_ccy24h : D
  pub vol24h : D
  pub sod_utc0 : D
  pub sod_utc8 : D
  pub ts : ℤ

abbrev pub new_ticker : {D : Type 0} → D → Ticker D
new_ticker nought = record {
  inst_type = InstrumentType.spot;
  inst_id = [];
  last = nought;
  last_sz = nought;
  ask_px = nought;
  ask_sz = nought;
  bid_px = nought;
  bid_sz = nought;
  open24h = nought;
  high24h = nought;
  low24h = nought;
  vol_ccy24h = nought;
  vol24h = nought;
  sod_utc0 = nought;
  sod_utc8 = nought;
  ts = zero_ℤ;
}

-- A default-initialised `Candle`.
abbrev pub new_candle : {D : Type 0} → D → Candle D
new_candle nought = record {
  ts = zero_ℤ;
  o = nought;
  h = nought;
  l = nought;
  c = nought;
  vol = nought;
  vol_ccy = nought;
  vol_ccy_quote = nought;
  confirm = false;
}

-- `SystemTime`.
pub record SystemTime (J : Type 0) : Type 0 where
  pub response : Response J
  pub ts : ℤ

module _ {J D : Type 0} (lib : ModelJson J D) where
  open lib use {
    json, decimal, find, at, items, empty, is_array, get_text, read_int64, read_int,
    read_instrument_type, read_sett_state, position_side_cast, stoll, string2bool,
  }
  open json use {read_text}

  -- `Ticker::fromJson`.
  pub ticker_from_json : Ticker D → J → Result (Ticker D)
  ticker_from_json r j = do
    inst_type ← read_instrument_type j (codes "instType") r.inst_type
    inst_id ← read_text j (codes "instId") r.inst_id
    last ← read_decimal lib j (codes "last") r.last
    last_sz ← read_decimal lib j (codes "lastSz") r.last_sz
    ask_px ← read_decimal lib j (codes "askPx") r.ask_px
    ask_sz ← read_decimal lib j (codes "askSz") r.ask_sz
    bid_px ← read_decimal lib j (codes "bidPx") r.bid_px
    bid_sz ← read_decimal lib j (codes "bidSz") r.bid_sz
    open24h ← read_decimal lib j (codes "open24h") r.open24h
    high24h ← read_decimal lib j (codes "high24h") r.high24h
    low24h ← read_decimal lib j (codes "low24h") r.low24h
    vol_ccy24h ← read_decimal lib j (codes "volCcy24h") r.vol_ccy24h
    vol24h ← read_decimal lib j (codes "vol24h") r.vol24h
    sod_utc0 ← read_decimal lib j (codes "sodUtc0") r.sod_utc0
    sod_utc8 ← read_decimal lib j (codes "sodUtc8") r.sod_utc8
    vol24h' ← read_decimal lib j (codes "vol24h") vol24h
    ts ← read_int64 j (codes "ts")
    ok (record {
      inst_type = inst_type;
      inst_id = inst_id;
      last = last;
      last_sz = last_sz;
      ask_px = ask_px;
      ask_sz = ask_sz;
      bid_px = bid_px;
      bid_sz = bid_sz;
      open24h = open24h;
      high24h = high24h;
      low24h = low24h;
      vol_ccy24h = vol_ccy24h;
      vol24h = vol24h';
      sod_utc0 = sod_utc0;
      sod_utc8 = sod_utc8;
      ts = ts;
    })

  -- `Tickers::fromJson`.
  pub tickers_from_json : Listing J (Ticker D) → J → Result (Listing J (Ticker D))
  tickers_from_json l j = listing_from_json lib (ticker_from_json (new_ticker decimal.nought)) l j

  -- `json[i]` of a constant: undefined behind the end of an array, an exception of another value.
  unfoldable pub element_at : J → ℕ → Result J
  element_at j i =
      if is_array j
      then (elim (get_elem? (items j) i) [ none ↦ err undefined | some v ↦ ok v ])
      else err (foreign [])

  -- The text at a place of an array.
  unfoldable pub text_at : J → ℕ → Result Bytes
  unfolding element_at
  text_at j i = element_at j i >>= get_text

  unfoldable pub decimal_at : J → ℕ → Result D
  unfolding text_at decimal_of
  decimal_at j i = text_at j i >>= decimal_of lib

  -- `Candle::fromJson`, which sets every field.
  unfoldable pub candle_from_json : J → Result (Candle D)
  unfolding decimal_at
  candle_from_json j = do
    ts ← text_at j 0 >>= stoll
    o ← decimal_at j 1
    h ← decimal_at j 2
    l ← decimal_at j 3
    c ← decimal_at j 4
    vol ← decimal_at j 5
    vol_ccy ← decimal_at j 6
    vol_ccy_quote ← decimal_at j 7
    confirm ← text_at j 8 >>= string2bool
    ok (record {
      ts = ts;
      o = o;
      h = h;
      l = l;
      c = c;
      vol = vol;
      vol_ccy = vol_ccy;
      vol_ccy_quote = vol_ccy_quote;
      confirm = confirm;
    })

  -- `Candles::fromJson`.
  pub candles_from_json : Listing J (Candle D) → J → Result (Listing J (Candle D))
  candles_from_json l j = listing_from_json lib (candle_from_json) l j

  -- `FundingRate::fromJson`, up to its `data`: a response, of which the first element counts, or the
  -- value itself.
  funding_rate_data : FundingRate J D → J → Result (FundingRate J D)
  funding_rate_data r j =
      if json.contains j (codes "data")
      then (do
        s ← response_from_json lib (record { code = r.code; msg = r.msg; body = r.body }) j
        body ← if not (empty s.body) then at s.body 0 else ok s.body
        ok (record r { code = s.code; msg = s.msg; body = body }))
      else ok (record r { body = j })

  -- The fields, out of `data`.
  funding_rate_fields : FundingRate J D → J → Result (FundingRate J D)
  funding_rate_fields r j = do
    inst_type ← read_instrument_type j (codes "instType") r.inst_type
    inst_id ← read_text j (codes "instId") r.inst_id
    funding_rate ← read_decimal lib j (codes "fundingRate") r.funding_rate
    funding_time ← read_int64 j (codes "fundingTime")
    next_funding_time ← read_int64 j (codes "nextFundingTime")
    next_funding_rate ← read_decimal lib j (codes "nextFundingRate") r.next_funding_rate
    interest_rate ← read_decimal lib j (codes "interestRate") r.interest_rate
    premium ← read_decimal lib j (codes "premium") r.premium
    max_funding_rate ← read_decimal lib j (codes "maxFundingRate") r.max_funding_rate
    min_funding_rate ← read_decimal lib j (codes "minFundingRate") r.min_funding_rate
    ts ← read_int64 j (codes "ts")
    sett_state ← read_sett_state j (codes "settState") r.sett_state
    sett_funding_rate ← read_decimal lib j (codes "settFundingRate") r.sett_funding_rate
    ok (record r {
      inst_type = inst_type;
      inst_id = inst_id;
      funding_rate = funding_rate;
      funding_time = funding_time;
      next_funding_time = next_funding_time;
      next_funding_rate = next_funding_rate;
      interest_rate = interest_rate;
      premium = premium;
      max_funding_rate = max_funding_rate;
      min_funding_rate = min_funding_rate;
      ts = ts;
      sett_state = sett_state;
      sett_funding_rate = sett_funding_rate;
    })

  -- `FundingRate::fromJson`.
  pub funding_rate_from_json : FundingRate J D → J → Result (FundingRate J D)
  unfolding funding_rate_data funding_rate_fields
  funding_rate_from_json r j = do
    r' ← funding_rate_data r j
    if not (empty r'.body) then funding_rate_fields r' r'.body else ok r'

  -- `FundingRates::fromJson`; `null` is JSON's null, which a new rate holds.
  pub funding_rates_from_json :
      J → Listing J (FundingRate J D) → J → Result (Listing J (FundingRate J D))
  funding_rates_from_json null l j =
      listing_from_json lib (funding_rate_from_json (new_funding_rate null decimal.nought)) l j

  -- The loop of `SystemTime::fromJson`: each element sets the time anew.
  last_ts : ℤ → List J → Result ℤ
  last_ts ts [] = ok ts
  last_ts ts (j ∷ js) = read_int64 j (codes "ts") >>= (λ ts'. last_ts ts' js)

  -- `SystemTime::fromJson`.
  pub system_time_from_json : SystemTime J → J → Result (SystemTime J)
  unfolding last_ts
  system_time_from_json r j = do
    response ← response_from_json lib r.response j
    ts ← last_ts r.ts (items response.body)
    ok (record { response = response; ts = ts })
