-- ===== src/Models/Orders.antt =====
-- src/okx_models.cpp: orders and what the exchange says of them.
use okx_cpp_api.Prelude.{ℕ, none, some, [], ◌∷◌, Bytes, codes}
use okx_cpp_api.Prelude.Int.{ℤ, zero_ℤ}
use okx_cpp_api.Result.{Result, ok, ◌>>=◌}
use okx_cpp_api.Enums.{
  InstrumentType, MarginMode, OrderType, Side, OrderState, PositionSide, position_side_name,
}
use okx_cpp_api.Json.{JsonLibrary}
use okx_cpp_api.Models.Base.{ModelJson, Listing, read_decimal, listing_from_json}

pub record Order (D : Type 0) : Type 0 where
  pub inst_id : Bytes
  pub td_mode : MarginMode
  pub cl_ord_id : Bytes
  pub side : Side
  pub ccy : Bytes
  pub pos_side : PositionSide
  pub ord_type : OrderType
  pub sz : D
  pub px : D

abbrev pub new_order : {D : Type 0} → D → Order D
new_order nought = record {
  inst_id = [];
  td_mode = MarginMode.cross;
  cl_ord_id = [];
  side = Side.buy;
  ccy = [];
  pos_side = PositionSide.net;
  ord_type = OrderType.market;
  sz = nought;
  px = nought;
}

pub record OrderResponse : Type 0 where
  pub cl_ord_id : Bytes
  pub ord_id : Bytes
  pub tag : Bytes
  pub s_code : Bytes
  pub s_msg : Bytes

abbrev pub new_order_response : OrderResponse
new_order_response = record { cl_ord_id = []; ord_id = []; tag = []; s_code = []; s_msg = [] }

pub record OrderDetail (D : Type 0) : Type 0 where
  pub inst_type : InstrumentType
  pub inst_id : Bytes
  pub ccy : Bytes
  pub ord_id : Bytes
  pub cl_ord_id : Bytes
  pub px : D
  pub sz : D
  pub pnl : D
  pub ord_type : OrderType
  pub side : Side
  pub pos_side : PositionSide
  pub td_mode : MarginMode
  pub acc_fill_sz : D
  pub fill_px : D
  pub trade_id : Bytes
  pub fill_sz : D
  pub fill_time : ℤ
  pub state : OrderState
  pub avg_px : D
  pub lever : D
  pub u_time : ℤ
  pub c_time : ℤ

abbrev pub new_order_detail : {D : Type 0} → D → OrderDetail D
new_order_detail nought = record {
  inst_type = InstrumentType.margin;
  inst_id = [];
  ccy = [];
  ord_id = [];
  cl_ord_id = [];
  px = nought;
  sz = nought;
  pnl = nought;
  ord_type = OrderType.market;
  side = Side.buy;
  pos_side = PositionSide.long;
  td_mode = MarginMode.isolated;
  acc_fill_sz = nought;
  fill_px = nought;
  trade_id = [];
  fill_sz = nought;
  fill_time = zero_ℤ;
  state = OrderState.live;
  avg_px = nought;
  lever = nought;
  u_time = zero_ℤ;
  c_time = zero_ℤ;
}

-- `Order::toJson`. The JSON of an enumerator of the three enumerations that are assigned as they are,
-- and the texts of the decimals, `str()` and `str(3)`, are the libraries'.
pub order_to_json :
    {J D : Type 0}
    → JsonLibrary J
    → (MarginMode → J)
    → (Side → J)
    → (OrderType → J)
    → (D → Bytes)
    → (ℕ → D → Bytes)
    → Order D
    → J
order_to_json json margin_mode_json side_json order_type_json str str_digits order = json.object (
    (codes "instId", json.text order.inst_id)
    ∷ (codes "tdMode", margin_mode_json order.td_mode)
    ∷ (codes "clOrdId", json.text order.cl_ord_id)
    ∷ (codes "ccy", json.text order.ccy)
    ∷ (codes "side", side_json order.side)
    ∷ (codes "posSide", json.text (position_side_name order.pos_side))
    ∷ (codes "ordType", order_type_json order.ord_type)
    ∷ (codes "sz", json.text (str order.sz))
    ∷ (codes "px", json.text (str_digits 3 order.px))
    ∷ [])

module _ {J D : Type 0} (lib : ModelJson J D) where
  open lib use {
    json, decimal, find, at, items, empty, is_array, get_text, read_int64, read_int,
    read_instrument_type, read_margin_mode, read_order_type, read_side, read_order_state,
    position_side_cast, stoll, string2bool,
  }
  open json use {read_text}

  -- `OrderResponse::fromJson`.
  pub order_response_from_json : OrderResponse → J → Result OrderResponse
  order_response_from_json r j = do
    cl_ord_id ← read_text j (codes "clOrdId") r.cl_ord_id
    ord_id ← read_text j (codes "ordId") r.ord_id
    tag ← read_text j (codes "tag") r.tag
    s_code ← read_text j (codes "sCode") r.s_code
    s_msg ← read_text j (codes "sMsg") r.s_msg
    ok (record {
      cl_ord_id = cl_ord_id;
      ord_id = ord_id;
      tag = tag;
      s_code = s_code;
      s_msg = s_msg;
    })

  -- `OrderResponses::fromJson`.
  pub order_responses_from_json : Listing J (OrderResponse) → J → Result (Listing J (OrderResponse))
  order_responses_from_json l j =
      listing_from_json lib (order_response_from_json new_order_response) l j

  -- `OrderDetail::fromJson`.
  pub order_detail_from_json : OrderDetail D → J → Result (OrderDetail D)
  order_detail_from_json r j = do
    inst_type ← read_instrument_type j (codes "instType") r.inst_type
    inst_id ← read_text j (codes "instId") r.inst_id
    ccy ← read_text j (codes "ccy") r.ccy
    ord_id ← read_text j (codes "ordId") r.ord_id
    cl_ord_id ← read_text j (codes "clOrdId") r.cl_ord_id
    px ← read_decimal lib j (codes "px") r.px
    sz ← read_decimal lib j (codes "sz") r.sz
    pnl ← read_decimal lib j (codes "pnl") r.pnl
    ord_type ← read_order_type j (codes "ordType") r.ord_type
    side ← read_side j (codes "side") r.side
    text ← read_text j (codes "posSide") []
    let pos_side : PositionSide = elim (position_side_cast text) [ none ↦ r.pos_side | some p ↦ p ]
    td_mode ← read_margin_mode j (codes "tdMode") r.td_mode
    acc_fill_sz ← read_decimal lib j (codes "accFillSz") r.acc_fill_sz
    fill_px ← read_decimal lib j (codes "fillPx") r.fill_px
    trade_id ← read_text j (codes "tradeId") r.trade_id
    fill_sz ← read_decimal lib j (codes "fillSz") r.fill_sz
    fill_time ← read_int64 j (codes "fillTime")
    state ← read_order_state j (codes "state") r.state
    avg_px ← read_decimal lib j (codes "avgPx") r.avg_px
    lever ← read_decimal lib j (codes "lever") r.lever
    u_time ← read_int64 j (codes "uTime")
    c_time ← read_int64 j (codes "cTime")
    ok (record {
      inst_type = inst_type;
      inst_id = inst_id;
      ccy = ccy;
      ord_id = ord_id;
      cl_ord_id = cl_ord_id;
      px = px;
      sz = sz;
      pnl = pnl;
      ord_type = ord_type;
      side = side;
      pos_side = pos_side;
      td_mode = td_mode;
      acc_fill_sz = acc_fill_sz;
      fill_px = fill_px;
      trade_id = trade_id;
      fill_sz = fill_sz;
      fill_time = fill_time;
      state = state;
      avg_px = avg_px;
      lever = lever;
      u_time = u_time;
      c_time = c_time;
    })

  -- `OrderDetails::fromJson`.
  pub order_details_from_json : Listing J (OrderDetail D) → J → Result (Listing J (OrderDetail D))
  order_details_from_json l j =
      listing_from_json lib (order_detail_from_json (new_order_detail decimal.nought)) l j
