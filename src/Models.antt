-- ===== src/Models.antt =====
-- include/stonky/okx/okx_models.h: the records that the program's own algorithms work on. `D` is
-- boost's `cpp_dec_float_50`, `J` is `nlohmann::json`, and a time stamp, an `int64_t`, is an integer.
pub mod Base
pub mod Laws
pub mod Tree
pub mod Market
pub mod Instruments
pub mod Account
pub mod Positions
pub mod Orders
pub mod Archive
mod Unwritten
use okx_cpp_api.Prelude.{Bool, Option, [], Bytes}
use okx_cpp_api.Prelude.Int.{ℤ, pos}
use okx_cpp_api.Enums.{InstrumentType, SettState, spot, processing}

pub record Candle (D : Type 0) : Type 0 where
  pub ts : ℤ
  pub o : D
  pub h : D
  pub l : D
  pub c : D
  pub vol : D
  pub vol_ccy : D
  pub vol_ccy_quote : D
  pub confirm : Bool

-- What the program uses of `cpp_dec_float_50`: a text is read, or refused by an exception, and a
-- value that is not given is 0.
pub record Decimal (D : Type 0) : Type 0 where
  pub nought : D
  pub of_text : Bytes → Option D

-- `FundingRate`, with the fields of its base `Response` first.
pub record FundingRate (J D : Type 0) : Type 0 where
  pub code : Bytes
  pub msg : Bytes
  pub body : J
  pub inst_type : InstrumentType
  pub inst_id : Bytes
  pub funding_rate : D
  pub funding_time : ℤ
  pub next_funding_time : ℤ
  pub next_funding_rate : D
  pub interest_rate : D
  pub premium : D
  pub max_funding_rate : D
  pub min_funding_rate : D
  pub ts : ℤ
  pub sett_state : SettState
  pub sett_funding_rate : D

-- A default-initialised `FundingRate`; `null` is JSON's null.
abbrev pub new_funding_rate : {J D : Type 0} → J → D → FundingRate J D
new_funding_rate null nought = record {
  code = [];
  msg = [];
  body = null;
  inst_type = spot;
  inst_id = [];
  funding_rate = nought;
  funding_time = pos 0;
  next_funding_time = pos 0;
  next_funding_rate = nought;
  interest_rate = nought;
  premium = nought;
  max_funding_rate = nought;
  min_funding_rate = nought;
  ts = pos 0;
  sett_state = processing;
  sett_funding_rate = nought;
}
