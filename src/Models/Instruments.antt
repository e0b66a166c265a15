-- ===== src/Models/Instruments.antt =====
-- src/okx_models.cpp: instruments.
use okx_cpp_api.Prelude.{[], Bytes, codes}
use okx_cpp_api.Prelude.Int.{ℤ, zero_ℤ}
use okx_cpp_api.Result.{Result, ok, ◌>>=◌}
use okx_cpp_api.Enums.{InstrumentType, OptionType, ContractType, FuturesAlias, InstrumentStatus}
use okx_cpp_api.Models.Base.{ModelJson, Listing, read_decimal, listing_from_json}

pub record Instrument (D : Type 0) : Type 0 where
  pub inst_type : InstrumentType
  pub inst_id : Bytes
  pub inst_family : Bytes
  pub uly : Bytes
  pub base_ccy : Bytes
  pub quote_ccy : Bytes
  pub settle_ccy : Bytes
  pub ct_val : D
  pub ct_mult : D
  pub ct_val_ccy : Bytes
  pub opt_type : OptionType
  pub stk : D
  pub list_time : ℤ
  pub exp_time : ℤ
  pub lever : D
  pub tick_sz : D
  pub lot_sz : D
  pub min_sz : D
  pub ct_type : ContractType
  pub alias : FuturesAlias
  pub state : InstrumentStatus
  pub max_lmt_sz : D
  pub max_mkt_sz : D
  pub max_twap_sz : D
  pub max_iceberg_sz : D
  pub max_trigger_sz : D
  pub max_stop_sz : D

abbrev pub new_instrument : {D : Type 0} → D → Instrument D
new_instrument nought = record {
  inst_type = InstrumentType.spot;
  inst_id = [];
  inst_family = [];
  uly = [];
  base_ccy = [];
  quote_ccy = [];
  settle_ccy = [];
  ct_val = nought;
  ct_mult = nought;
  ct_val_ccy = [];
  opt_type = OptionType.c;
  stk = nought;
  list_time = zero_ℤ;
  exp_time = zero_ℤ;
  lever = nought;
  tick_sz = nought;
  lot_sz = nought;
  min_sz = nought;
  ct_type = ContractType.linear;
  alias = FuturesAlias.this_week;
  state = InstrumentStatus.live;
  max_lmt_sz = nought;
  max_mkt_sz = nought;
  max_twap_sz = nought;
  max_iceberg_sz = nought;
  max_trigger_sz = nought;
  max_stop_sz = nought;
}

module _ {J D : Type 0} (lib : ModelJson J D) where
  open lib use {
    json, decimal, find, at, items, empty, is_array, get_text, read_int64, read_int,
    read_instrument_type, read_option_type, read_contract_type, read_futures_alias,
    read_instrument_status, position_side_cast, stoll, string2bool,
  }
  open json use {read_text}

  -- `Instrument::fromJson`.
  pub instrument_from_json : Instrument D → J → Result (Instrument D)
  instrument_from_json r j = do
    inst_type ← read_instrument_type j (codes "instType") r.inst_type
    inst_id ← read_text j (codes "instId") r.inst_id
    inst_family ← read_text j (codes "instFamily") r.inst_family
    uly ← read_text j (codes "uly") r.uly
    base_ccy ← read_text j (codes "baseCcy") r.base_ccy
    quote_ccy ← read_text j (codes "quoteCcy") r.quote_ccy
    settle_ccy ← read_text j (codes "settleCcy") r.settle_ccy
    ct_val ← read_decimal lib j (codes "ctVal") r.ct_val
    ct_mult ← read_decimal lib j (codes "ctMult") r.ct_mult
    ct_val_ccy ← read_text j (codes "ctValCcy") r.ct_val_ccy
    opt_type ← read_option_type j (codes "optType") r.opt_type
    stk ← read_decimal lib j (codes "stk") r.stk
    list_time ← read_int64 j (codes "listTime")
    exp_time ← read_int64 j (codes "expTime")
    lever ← read_decimal lib j (codes "lever") r.lever
    tick_sz ← read_decimal lib j (codes "tickSz") r.tick_sz
    lot_sz ← read_decimal lib j (codes "lotSz") r.lot_sz
    min_sz ← read_decimal lib j (codes "minSz") r.min_sz
    ct_type ← read_contract_type j (codes "ctType") r.ct_type
    alias ← read_futures_alias j (codes "alias") r.alias
    state ← read_instrument_status j (codes "state") r.state
    max_lmt_sz ← read_decimal lib j (codes "maxLmtSz") r.max_lmt_sz
    max_mkt_sz ← read_decimal lib j (codes "maxMktSz") r.max_mkt_sz
    max_twap_sz ← read_decimal lib j (codes "maxTwapSz") r.max_twap_sz
    max_iceberg_sz ← read_decimal lib j (codes "maxIcebergSz") r.max_iceberg_sz
    max_trigger_sz ← read_decimal lib j (codes "maxTriggerSz") r.max_trigger_sz
    max_stop_sz ← read_decimal lib j (codes "maxStopSz") r.max_stop_sz
    ok (record {
      inst_type = inst_type;
      inst_id = inst_id;
      inst_family = inst_family;
      uly = uly;
      base_ccy = base_ccy;
      quote_ccy = quote_ccy;
      settle_ccy = settle_ccy;
      ct_val = ct_val;
      ct_mult = ct_mult;
      ct_val_ccy = ct_val_ccy;
      opt_type = opt_type;
      stk = stk;
      list_time = list_time;
      exp_time = exp_time;
      lever = lever;
      tick_sz = tick_sz;
      lot_sz = lot_sz;
      min_sz = min_sz;
      ct_type = ct_type;
      alias = alias;
      state = state;
      max_lmt_sz = max_lmt_sz;
      max_mkt_sz = max_mkt_sz;
      max_twap_sz = max_twap_sz;
      max_iceberg_sz = max_iceberg_sz;
      max_trigger_sz = max_trigger_sz;
      max_stop_sz = max_stop_sz;
    })

  -- `Instruments::fromJson`.
  pub instruments_from_json : Listing J (Instrument D) → J → Result (Listing J (Instrument D))
  instruments_from_json l j =
      listing_from_json lib (instrument_from_json (new_instrument decimal.nought)) l j
