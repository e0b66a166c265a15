-- ===== src/Models/Positions.antt =====
-- src/okx_models.cpp: positions.
use okx_cpp_api.Prelude.{none, some, [], Bytes, codes}
use okx_cpp_api.Prelude.Int.{ℤ, zero_ℤ}
use okx_cpp_api.Result.{Result, ok, ◌>>=◌}
use okx_cpp_api.Enums.{InstrumentType, MarginMode, PositionSide}
use okx_cpp_api.Models.Base.{ModelJson, Listing, read_decimal, listing_from_json}

pub record Position (D : Type 0) : Type 0 where
  pub adl : ℤ
  pub avail_pos : D
  pub avg_px : D
  pub c_time : ℤ
  pub ccy : Bytes
  pub imr : D
  pub inst_id : Bytes
  pub inst_type : InstrumentType
  pub interest : D
  pub last : D
  pub lever : D
  pub liab : D
  pub liab_ccy : Bytes
  pub liq_px : D
  pub margin : D
  pub mark_px : D
  pub mgn_mode : MarginMode
  pub mgn_ratio : D
  pub mmr : D
  pub notional_usd : D
  pub pos : D
  pub pos_ccy : Bytes
  pub pos_id : Bytes
  pub pos_side : PositionSide
  pub trade_id : Bytes
  pub u_time : ℤ
  pub upl : D
  pub upl_ratio : D

abbrev pub new_position : {D : Type 0} → D → Position D
new_position nought = record {
  adl = zero_ℤ;
  avail_pos = nought;
  avg_px = nought;
  c_time = zero_ℤ;
  ccy = [];
  imr = nought;
  inst_id = [];
  inst_type = InstrumentType.margin;
  interest = nought;
  last = nought;
  lever = nought;
  liab = nought;
  liab_ccy = [];
  liq_px = nought;
  margin = nought;
  mark_px = nought;
  mgn_mode = MarginMode.cross;
  mgn_ratio = nought;
  mmr = nought;
  notional_usd = nought;
  pos = nought;
  pos_ccy = [];
  pos_id = [];
  pos_side = PositionSide.net;
  trade_id = [];
  u_time = zero_ℤ;
  upl = nought;
  upl_ratio = nought;
}

module _ {J D : Type 0} (lib : ModelJson J D) where
  open lib use {
    json, decimal, find, at, items, empty, is_array, get_text, read_int64, read_int,
    read_instrument_type, read_margin_mode, position_side_cast, stoll, string2bool,
  }
  open json use {read_text}

  -- `Position::fromJson`.
  pub position_from_json : Position D → J → Result (Position D)
  position_from_json r j = do
    adl ← read_int j (codes "adl")
    avail_pos ← read_decimal lib j (codes "availPos") r.avail_pos
    avg_px ← read_decimal lib j (codes "avgPx") r.avg_px
    c_time ← read_int64 j (codes "cTime")
    ccy ← read_text j (codes "ccy") r.ccy
    imr ← read_decimal lib j (codes "imr") r.imr
    inst_id ← read_text j (codes "instId") r.inst_id
    inst_type ← read_instrument_type j (codes "instType") r.inst_type
    interest ← read_decimal lib j (codes "interest") r.interest
    last ← read_decimal lib j (codes "last") r.last
    lever ← read_decimal lib j (codes "lever") r.lever
    liab ← read_decimal lib j (codes "liab") r.liab
    liab_ccy ← read_text j (codes "liabCcy") r.liab_ccy
    liq_px ← read_decimal lib j (codes "liqPx") r.liq_px
    margin ← read_decimal lib j (codes "margin") r.margin
    mark_px ← read_decimal lib j (codes "markPx") r.mark_px
    mgn_mode ← read_margin_mode j (codes "mgnMode") r.mgn_mode
    mgn_ratio ← read_decimal lib j (codes "mgnRatio") r.mgn_ratio
    mmr ← read_decimal lib j (codes "mmr") r.mmr
    notional_usd ← read_decimal lib j (codes "notionalUsd") r.notional_usd
    pos ← read_decimal lib j (codes "pos") r.pos
    pos_ccy ← read_text j (codes "posCcy") r.pos_ccy
    pos_id ← read_text j (codes "posId") r.pos_id
    text ← read_text j (codes "posSide") []
    let pos_side : PositionSide = elim (position_side_cast text) [ none ↦ r.pos_side | some p ↦ p ]
    trade_id ← read_text j (codes "tradeId") r.trade_id
    u_time ← read_int64 j (codes "uTime")
    upl ← read_decimal lib j (codes "upl") r.upl
    upl_ratio ← read_decimal lib j (codes "uplRatio") r.upl_ratio
    ok (record {
      adl = adl;
      avail_pos = avail_pos;
      avg_px = avg_px;
      c_time = c_time;
      ccy = ccy;
      imr = imr;
      inst_id = inst_id;
      inst_type = inst_type;
      interest = interest;
      last = last;
      lever = lever;
      liab = liab;
      liab_ccy = liab_ccy;
      liq_px = liq_px;
      margin = margin;
      mark_px = mark_px;
      mgn_mode = mgn_mode;
      mgn_ratio = mgn_ratio;
      mmr = mmr;
      notional_usd = notional_usd;
      pos = pos;
      pos_ccy = pos_ccy;
      pos_id = pos_id;
      pos_side = pos_side;
      trade_id = trade_id;
      u_time = u_time;
      upl = upl;
      upl_ratio = upl_ratio;
    })

  -- `Positions::fromJson`.
  pub positions_from_json : Listing J (Position D) → J → Result (Listing J (Position D))
  positions_from_json l j =
      listing_from_json lib (position_from_json (new_position decimal.nought)) l j
