-- ===== src/Models/Base.antt =====
-- src/okx_models.cpp: how the models read JSON. `J` is `nlohmann::json` and `D` boost's
-- `cpp_dec_float_50`; the readers of stonky-cpp-common, a submodule whose files are not in the
-- repository, are parameters, one for each type that the models read.
pub mod Listings
use okx_cpp_api.Prelude.{
  ℕ, ◌+◌, Bool, true, false, not, ◌&&◌, Option, none, some, List, [], ◌∷◌, ◌++◌, if◌then◌else◌,
  is_empty, Bytes, codes,
}
use okx_cpp_api.Prelude.Int.{ℤ}
use okx_cpp_api.Result.{Result, ok, err, foreign, undefined, ◌>>=◌}
use okx_cpp_api.Enums.{
  InstrumentType, OptionType, ContractType, FuturesAlias, InstrumentStatus, MarginMode, OrderType,
  Side, OrderState, PositionSide, SettState, DateAggrType,
}
use okx_cpp_api.Json.{JsonLibrary}
use okx_cpp_api.Models.{Decimal}

-- `find` is none for `end()`; `at` is `operator[]` with a number, on a value that is no constant;
-- `items` are the values of `items()`; `empty` is `empty()`. The `read_…` are `readMagicEnum`,
-- `readStringAsInt64` and `readStringAsInt`, and `position_side_cast` is magic_enum's `enum_cast`.
pub record ModelJson (J D : Type 0) : Type 0 where
  pub json : JsonLibrary J
  pub decimal : Decimal D
  pub find : J → Bytes → Option J
  pub at : J → ℕ → Result J
  pub items : J → List J
  pub empty : J → Bool
  pub is_null : J → Bool
  pub is_string : J → Bool
  pub is_array : J → Bool
  pub get_text : J → Result Bytes
  pub read_int64 : J → Bytes → Result ℤ
  pub read_int : J → Bytes → Result ℤ
  pub read_instrument_type : J → Bytes → InstrumentType → Result InstrumentType
  pub read_option_type : J → Bytes → OptionType → Result OptionType
  pub read_contract_type : J → Bytes → ContractType → Result ContractType
  pub read_futures_alias : J → Bytes → FuturesAlias → Result FuturesAlias
  pub read_instrument_status : J → Bytes → InstrumentStatus → Result InstrumentStatus
  pub read_margin_mode : J → Bytes → MarginMode → Result MarginMode
  pub read_order_type : J → Bytes → OrderType → Result OrderType
  pub read_side : J → Bytes → Side → Result Side
  pub read_order_state : J → Bytes → OrderState → Result OrderState
  pub read_sett_state : J → Bytes → SettState → Result SettState
  pub read_date_aggr_type : J → Bytes → DateAggrType → Result DateAggrType
  pub position_side_cast : Bytes → Option PositionSide
  pub stoll : Bytes → Result ℤ
  pub string2bool : Bytes → Result Bool

-- `Response`; `body` is its field `data`.
pub record Response (J : Type 0) : Type 0 where
  pub code : Bytes
  pub msg : Bytes
  pub body : J

-- A default-initialised `Response`, with JSON's null.
abbrev pub new_response : {J : Type 0} → J → Response J
new_response null = record { code = []; msg = []; body = null }

-- `Tickers`, `Candles`, `FundingRates`, `Instruments`, `Positions`, `OrderResponses` and
-- `OrderDetails`: a response and the vector that it holds.
pub record Listing (J A : Type 0) : Type 0 where
  pub response : Response J
  pub elements : List A

abbrev pub new_listing : {J A : Type 0} → J → Listing J A
new_listing null = record { response = new_response null; elements = [] }

module _ {J D : Type 0} (lib : ModelJson J D) where
  -- A text of a number, or the exception of `cpp_dec_float_50`.
  unfoldable pub decimal_of : Bytes → Result D
  decimal_of s = elim (lib.decimal.of_text s) [ none ↦ err (foreign s) | some d ↦ ok d ]

  -- `readDecimalValue`: what it returns, and the variable afterwards.
  unfoldable pub read_decimal_value : J → Bytes → D → D → Result (Bool × D)
  unfolding decimal_of
  read_decimal_value j key value default_val = elim (lib.find j key) [
    | none ↦ ok (false, value)
    | some it ↦
        if not (lib.is_null it) && lib.is_string it
        then lib.get_text it >>= (λ s.
          if is_empty s then ok (false, default_val) else decimal_of s >>= (λ d. ok (true, d)))
        else ok (false, default_val)
  ]

  -- As the models call it: with the default 0, and without a look at what it returns.
  unfoldable pub read_decimal : J → Bytes → D → Result D
  unfolding read_decimal_value
  read_decimal j key value = read_decimal_value j key value lib.decimal.nought >>= (λ r. ok r.1)

  -- `json[key]` of a constant: undefined without the key, an exception of a value that is no object.
  unfoldable pub element : J → Bytes → Result J
  element j key =
      if lib.json.is_object j
      then (elim (lib.find j key) [ none ↦ err undefined | some v ↦ ok v ])
      else err (foreign key)

  -- `Response::toJson`.
  unfoldable pub response_to_json : Response J → J
  response_to_json r =
      lib.json.object
        ((codes "code", lib.json.text r.code) ∷ (codes "msg", lib.json.text r.msg) ∷ [])

  -- `Response::fromJson`.
  unfoldable pub response_from_json : Response J → J → Result (Response J)
  unfolding element
  response_from_json r j = do
    code ← lib.json.read_text j (codes "code") r.code
    msg ← lib.json.read_text j (codes "msg") r.msg
    body ← element j (codes "data")
    ok (record { code = code; msg = msg; body = body })

  module _ {A : Type 0} (read_item : J → Result A) where
    -- `for (const auto &el: data.items())`, which reads each value into a new item behind the others.
    unfoldable pub push_items : List A → List J → Result (List A)
    push_items elements [] = ok elements
    push_items elements (j ∷ js) = do a ← read_item j; push_items (elements ++ (a ∷ [])) js

    -- `fromJson` of the seven.
    unfoldable pub listing_from_json : Listing J A → J → Result (Listing J A)
    unfolding response_from_json push_items
    listing_from_json l j = do
      response ← response_from_json l.response j
      elements ← push_items l.elements (lib.items response.body)
      ok (record { response = response; elements = elements })
