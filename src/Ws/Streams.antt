-- ===== src/Ws/Streams.antt =====
-- src/okx_ws_stream_manager.cpp: the tables that the callback of the client fills and the readers
-- wait on. A data event comes with what its JSON reads as: a ticker event or a candlestick event,
-- an exception, which is logged, or undefined behaviour.
pub mod Tables
pub mod Registers
pub mod Waiting
pub mod Channels
pub mod Defined
mod Examples
use mathlib.Core.Logic.{ite}
use okx_cpp_api.Prelude.{
  ◌^◌, ℕ, zero, suc, ◌+◌, ◌-◌, ◌*◌, Bool, true, false, ◌&&◌, ◌||◌, Option, none, some, List, [],
  ◌∷◌, ltb, ◌==◌, if◌then◌else◌, is_empty, Bytes, codes, bytes_eq,
}
use okx_cpp_api.Prelude.Int.{ℤ, pos, negsuc, eqb_ℤ}
use okx_cpp_api.Result.{Result, ends_undefined, caught}
use okx_cpp_api.Enums.{BarSize, CandlestickChannel, EnumText}
use okx_cpp_api.Okx.{candlestick_channel_to_bar_size}
use okx_cpp_api.Ws.Messages.{DataEvent}

-- A `std::map` from texts, by its lookups: `find`, and `insert_or_assign`.
module _ {V : Type 0} where
  unfoldable pub find : Bytes → List (Bytes × V) → Option V
  find k [] = none
  find k ((j, v) ∷ m) = if bytes_eq j k then some v else find k m

  unfoldable pub insert_or_assign : Bytes → V → List (Bytes × V) → List (Bytes × V)
  insert_or_assign k v [] = (k, v) ∷ []
  insert_or_assign k v ((j, w) ∷ m) =
      if bytes_eq j k then (k, v) ∷ m else (j, w) ∷ insert_or_assign k v m

-- A `std::map<BarSize, V>`, as the function of its lookups.
abbrev pub BarMap : Type 0 → Type 0
BarMap V = BarSize → Option V

pub BarSize-discrete : Discrete BarSize
BarSize-discrete = hlevel

pub assign_bar : {V : Type 0} → BarSize → V → BarMap V → BarMap V
assign_bar b v m b' = ite (BarSize-discrete b b') (some v) (m b')

-- `T` and `C` are `DataEventTicker` and `DataEventCandlestick`.
pub record StreamManager (T C : Type 0) : Type 0 where
  pub timeout : ℤ
  pub tickers : List (Bytes × T)
  pub candlesticks : List (Bytes × BarMap C)
  pub log_message_cb : Bool

-- `WSStreamManager::P` without its client, which is in Ws.Client, and `setTimeout`; of the callback it
-- is kept whether it is set.
abbrev pub new_stream_manager : {T C : Type 0} → StreamManager T C
new_stream_manager = record {
  timeout = pos 5;
  tickers = [];
  candlesticks = [];
  log_message_cb = false;
}

-- The destructor, once the client is gone.
pub destroy_stream_manager : {T C : Type 0} → StreamManager T C → StreamManager T C
destroy_stream_manager m = record m { timeout = pos 0 }

pub set_timeout : {T C : Type 0} → StreamManager T C → ℤ → StreamManager T C
set_timeout m seconds = record m { timeout = seconds }

-- `s.find(part) != std::string::npos`.
unfoldable pub starts_with : Bytes → Bytes → Bool
starts_with [] s = true
starts_with (p ∷ ps) [] = false
starts_with (p ∷ ps) (c ∷ cs) = (c == p) && starts_with ps cs

unfoldable pub has_part : Bytes → Bytes → Bool
unfolding starts_with
has_part part [] = is_empty part
has_part part (c ∷ cs) = starts_with part (c ∷ cs) || has_part part cs

-- How a callback ends: with the tables, or in undefined behaviour.
pub data Callback (S : Type 0) : Type 0 where
  done : S → Callback S
  undefined : Callback S

module _ {J T C : Type 0} (ticker_from_json : J → Option T) (candlestick_from_json : J → Option C)
    (channels : EnumText CandlestickChannel) where
  -- The branch for `tickers`.
  unfoldable pub store_ticker : StreamManager T C → Bytes → Option T → StreamManager T C
  store_ticker m inst_id none = m
  store_ticker m inst_id (some ticker) = elim (find inst_id m.tickers) [
    | none ↦ record m { tickers = insert_or_assign inst_id ticker m.tickers }
    | some _ ↦ m
  ]

  -- The branch for candles: `enum_cast` of a text that names no channel is empty, and `*` of it is
  -- undefined.
  pub store_candlestick :
      StreamManager T C → Bytes → Bytes → Option C → Callback (StreamManager T C)
  store_candlestick m channel inst_id none = done m
  store_candlestick m channel inst_id (some candlestick) =
      let bars : BarMap C = elim (find inst_id m.candlesticks) [ none ↦ λ _. none | some b ↦ b ] in
      elim (channels.enum_cast channel) [
        | none ↦ undefined
        | some c ↦ done (record m {
          candlesticks =
              insert_or_assign inst_id
                (assign_bar (candlestick_channel_to_bar_size c) candlestick bars) m.candlesticks;
        })
      ]

  -- The body of the callback, on a payload of which the reading is defined.
  unfoldable pub store_event : StreamManager T C → DataEvent J → Callback (StreamManager T C)
  unfolding has_part
  store_event m event =
      if bytes_eq event.channel (codes "tickers")
      then done (store_ticker m event.inst_id (ticker_from_json event.payload))
      else if has_part (codes "candle") event.channel
      then store_candlestick m event.channel event.inst_id (candlestick_from_json event.payload)
      else done m

-- A reader with its exceptions caught.
abbrev pub readable : {J A : Type 0} → (J → Result A) → J → Option A
readable from_json j = caught (from_json j)

module _ {J T C : Type 0} (ticker_from_json : J → Result T) (candlestick_from_json : J → Result C)
    (channels : EnumText CandlestickChannel) where
  -- Whether the reading of the payload is undefined behaviour.
  unfoldable pub payload_undefined : DataEvent J → Bool
  unfolding has_part ends_undefined
  payload_undefined event =
      if bytes_eq event.channel (codes "tickers")
      then ends_undefined (ticker_from_json event.payload)
      else has_part (codes "candle") event.channel
        && ends_undefined (candlestick_from_json event.payload)

  -- The callback that the constructor of `P` sets: it reads the payload, catches exceptions of this, and
  -- stores what was read.
  unfoldable pub on_data_event : StreamManager T C → DataEvent J → Callback (StreamManager T C)
  unfolding payload_undefined store_event
  on_data_event m event =
      if payload_undefined event
      then undefined
      else store_event (readable ticker_from_json) (readable candlestick_from_json) channels m event

  -- A sequence of events.
  unfoldable pub on_data_events :
      StreamManager T C → List (DataEvent J) → Callback (StreamManager T C)
  on_data_events m [] = done m
  on_data_events m (e ∷ es) = elim (on_data_event m e) [
    | undefined ↦ undefined
    | done m' ↦ on_data_events m' es
  ]

-- Whether an integer is one of an `int`.
pub fits_int : ℤ → Bool
fits_int (pos n) = ltb n (2 ^ 31)
fits_int (negsuc n) = ltb n (2 ^ 31)

-- `static_cast<int>(timeout / 0.01)`: the double nearest to 0.01 divides an `int` into the double
-- nearest to a hundred times it, which is that number; `none` is undefined behaviour, when it is too
-- large for an `int`.
pub hundred_times : ℤ → ℤ
hundred_times (pos n) = pos (100 * n)
hundred_times (negsuc n) = negsuc (100 * n + 99)

pub max_num_tries : ℤ → Option ℤ
unfolding fits_int hundred_times
max_num_tries seconds =
    if fits_int (hundred_times seconds) then some (hundred_times seconds) else none

-- The loop of the readers: `table i` is what the lookup finds on the try `i`, when others may have
-- filled the tables, `timeout i` is the timeout that it reads before, and `late i` is by how many ms the
-- sleep behind it outlasts the 3 ms that it asks for. With the tries that were made, each followed by a
-- sleep, and the ms slept.
wait_loop : {V : Type 0} → (ℕ → ℤ) → (ℕ → ℕ) → (ℕ → Option V) → ℕ → ℕ → ℕ → Option V × ℕ × ℕ
wait_loop {V} timeout late table zero num_tries slept = (none, num_tries, slept)
wait_loop {V} timeout late table (suc left) num_tries slept =
    let rest = wait_loop timeout late table left (num_tries + 1) (slept + (3 + late num_tries)) in
    let try : Option V × ℕ × ℕ = elim (table num_tries) [
      | some v ↦ (some v, num_tries, slept)
      | none ↦ rest
    ] in
    if eqb_ℤ (timeout num_tries) (pos 0) then (none, num_tries, slept) else try

-- `readEventInstrumentInfo` and `readEventCandlestick`; `seconds` is the timeout that they begin with.
-- `none` is undefined behaviour.
pub read_event : {V : Type 0} → ℤ → (ℕ → ℤ) → (ℕ → ℕ) → (ℕ → Option V) → Option (Option V × ℕ × ℕ)
unfolding wait_loop max_num_tries
read_event seconds timeout late table = elim (max_num_tries seconds) [
  | none ↦ none
  | some (pos tries) ↦ some (wait_loop timeout late table (tries + 1) 0 0)
  | some (negsuc _) ↦ some (none, 0, 0)
]

-- What `readEventInstrumentInfo` and `readEventCandlestick` look up.
unfoldable pub lookup_ticker : {T C : Type 0} → StreamManager T C → Bytes → Option T
lookup_ticker m inst_id = find inst_id m.tickers

pub lookup_candlestick : {T C : Type 0} → StreamManager T C → Bytes → BarSize → Option C
lookup_candlestick m inst_id bar_size = elim (find inst_id m.candlesticks) [
  | none ↦ none
  | some bars ↦ bars bar_size
]
