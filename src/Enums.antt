-- ===== src/Enums.antt =====
-- include/stonky/okx/okx_enums.h: the enumerations of the API, the two name tables that the header
-- gives to magic_enum because the API's words are no C++ identifiers, and the values of
-- `MarketDataModule`. A constructor has the enumerator's name in small letters; `candle1_h` is
-- `candle1H` and `candle1_m` is `candle1M` (a month), beside `candle1m` (a minute).
pub mod Names
use okx_cpp_api.Prelude.{ℕ, Bytes, codes, ◌≡◌, Option, some}

pub data InstrumentType : Type 0 where
  spot swap futures option margin : InstrumentType

pub data BarSize : Type 0 where
  _1m _3m _5m _15m _30m _1H _2H _4H _6H _12H _1D _2D _3D _1W _1M _3M : BarSize

pub data OptionType : Type 0 where
  c p : OptionType

pub data ContractType : Type 0 where
  linear inverse : ContractType

pub data FuturesAlias : Type 0 where
  this_week next_week quarter next_quarter : FuturesAlias

pub data InstrumentStatus : Type 0 where
  live suspend preopen test : InstrumentStatus

pub data MarginMode : Type 0 where
  cross isolated cash : MarginMode

pub data OrderType : Type 0 where
  market limit post_only fok ioc optimal_limit_ioc : OrderType

pub data Side : Type 0 where
  buy sell : Side

pub data OrderState : Type 0 where
  canceled live partially_filled filled : OrderState

pub data PositionSide : Type 0 where
  long short net : PositionSide

pub data OperationType : Type 0 where
  subscribe unsubscribe : OperationType

pub data SettState : Type 0 where
  processing settled : SettState

pub data EventType : Type 0 where
  subscribe unsubscribe error : EventType

pub data CandlestickChannel : Type 0 where
  candle1m candle3m candle5m candle15m candle30m candle1_h candle2_h candle4_h candle6_h candle12_h
        candle1_d candle2_d candle3_d candle1_w candle1_m candle3_m :
      CandlestickChannel

pub data MarketDataModule : Type 0 where
  trades candles1m funding_rate orderbook400 orderbook5000 orderbook50 : MarketDataModule

pub data DateAggrType : Type 0 where
  daily monthly : DateAggrType

-- `static_cast<std::int32_t>(module)`.
abbrev pub module_value : MarketDataModule → ℕ
module_value trades = 1
module_value candles1m = 2
module_value funding_rate = 3
module_value orderbook400 = 4
module_value orderbook5000 = 5
module_value orderbook50 = 6

-- `magic_enum::customize::enum_name<BarSize>`.
unfoldable pub bar_size_name : BarSize → Bytes
bar_size_name _1m = codes "1m"
bar_size_name _3m = codes "3m"
bar_size_name _5m = codes "5m"
bar_size_name _15m = codes "15m"
bar_size_name _30m = codes "30m"
bar_size_name _1H = codes "1H"
bar_size_name _2H = codes "2H"
bar_size_name _4H = codes "4H"
bar_size_name _6H = codes "6H"
bar_size_name _12H = codes "12H"
bar_size_name _1D = codes "1D"
bar_size_name _2D = codes "2D"
bar_size_name _3D = codes "3D"
bar_size_name _1W = codes "1W"
bar_size_name _1M = codes "1M"
bar_size_name _3M = codes "3M"

-- `magic_enum::customize::enum_name<PositionSide>`.
unfoldable pub position_side_name : PositionSide → Bytes
position_side_name long = codes "long"
position_side_name short = codes "short"
position_side_name net = codes "net"

-- What the program uses of magic_enum, a third-party library, for an enumeration without a table
-- of its own: `enum_name`, and `enum_cast`, which is empty where the text names no enumerator. The
-- laws are documented: `enum_cast` finds the value whose name the text is.
pub record EnumText (E : Type 0) : Type 0 where
  pub enum_name : E → Bytes
  pub enum_cast : Bytes → Option E
  pub cast-name : (e : E) → enum_cast (enum_name e) ≡ some e
  pub name_of_cast : (s : Bytes) (e : E) → enum_cast s ≡ some e → enum_name e ≡ s
