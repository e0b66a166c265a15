-- ===== src/Models/Account.antt =====
-- src/okx_models.cpp: the balance of the account.
use okx_cpp_api.Prelude.{none, some, List, [], ◌∷◌, if◌then◌else◌, Bytes, codes}
use okx_cpp_api.Prelude.Int.{ℤ, zero_ℤ}
use okx_cpp_api.Result.{Result, ok, err, foreign, ◌>>=◌}
use okx_cpp_api.Models.Base.{ModelJson, Response, read_decimal, response_from_json, push_items}

pub record BalanceDetail (D : Type 0) : Type 0 where
  pub avail_bal : D
  pub avail_eq : D
  pub cash_bal : D
  pub ccy : Bytes
  pub cross_liab : D
  pub dis_eq : D
  pub eq : D
  pub eq_usd : D
  pub frozen_bal : D
  pub interest : D
  pub iso_eq : D
  pub iso_liab : D
  pub iso_upl : D
  pub liab : D
  pub max_loan : D
  pub mgn_ratio : D
  pub notional_lever : D
  pub ord_frozen : D
  pub twap : D
  pub upl : D
  pub u_time : ℤ
  pub upl_liab : D
  pub stgy_eq : D
  pub spot_in_use_amt : D

abbrev pub new_balance_detail : {D : Type 0} → D → BalanceDetail D
new_balance_detail nought = record {
  avail_bal = nought;
  avail_eq = nought;
  cash_bal = nought;
  ccy = [];
  cross_liab = nought;
  dis_eq = nought;
  eq = nought;
  eq_usd = nought;
  frozen_bal = nought;
  interest = nought;
  iso_eq = nought;
  iso_liab = nought;
  iso_upl = nought;
  liab = nought;
  max_loan = nought;
  mgn_ratio = nought;
  notional_lever = nought;
  ord_frozen = nought;
  twap = nought;
  upl = nought;
  u_time = zero_ℤ;
  upl_liab = nought;
  stgy_eq = nought;
  spot_in_use_amt = nought;
}

-- `Balance`.
pub record Balance (J D : Type 0) : Type 0 where
  pub response : Response J
  pub adj_eq : D
  pub imr : D
  pub iso_eq : D
  pub mgn_ratio : D
  pub mmr : D
  pub notional_usd : D
  pub ord_froz : D
  pub total_eq : D
  pub u_time : ℤ
  pub balance_details : List (BalanceDetail D)

module _ {J D : Type 0} (lib : ModelJson J D) where
  open lib use {
    json, decimal, find, at, items, empty, is_array, get_text, read_int64, read_int,
    read_instrument_type, read_margin_mode, position_side_cast, stoll, string2bool,
  }
  open json use {read_text}

  -- `BalanceDetail::fromJson`.
  pub balance_detail_from_json : BalanceDetail D → J → Result (BalanceDetail D)
  balance_detail_from_json r j = do
    avail_bal ← read_decimal lib j (codes "availBal") r.avail_bal
    avail_eq ← read_decimal lib j (codes "availEq") r.avail_eq
    cash_bal ← read_decimal lib j (codes "cashBal") r.cash_bal
    ccy ← read_text j (codes "ccy") r.ccy
    cross_liab ← read_decimal lib j (codes "crossLiab") r.cross_liab
    dis_eq ← read_decimal lib j (codes "disEq") r.dis_eq
    eq ← read_decimal lib j (codes "eq") r.eq
    eq_usd ← read_decimal lib j (codes "eqUsd") r.eq_usd
    frozen_bal ← read_decimal lib j (codes "frozenBal") r.frozen_bal
    interest ← read_decimal lib j (codes "interest") r.interest
    iso_eq ← read_decimal lib j (codes "isoEq") r.iso_eq
    iso_liab ← read_decimal lib j (codes "isoLiab") r.iso_liab
    iso_upl ← read_decimal lib j (codes "isoUpl") r.iso_upl
    liab ← read_decimal lib j (codes "liab") r.liab
    max_loan ← read_decimal lib j (codes "maxLoan") r.max_loan
    mgn_ratio ← read_decimal lib j (codes "mgnRatio") r.mgn_ratio
    notional_lever ← read_decimal lib j (codes "notionalLever") r.notional_lever
    ord_frozen ← read_decimal lib j (codes "ordFrozen") r.ord_frozen
    twap ← read_decimal lib j (codes "twap") r.twap
    upl ← read_decimal lib j (codes "upl") r.upl
    u_time ← read_int64 j (codes "uTime")
    upl_liab ← read_decimal lib j (codes "uplLiab") r.upl_liab
    stgy_eq ← read_decimal lib j (codes "stgyEq") r.stgy_eq
    spot_in_use_amt ← read_decimal lib j (codes "spotInUseAmt") r.spot_in_use_amt
    ok (record {
      avail_bal = avail_bal;
      avail_eq = avail_eq;
      cash_bal = cash_bal;
      ccy = ccy;
      cross_liab = cross_liab;
      dis_eq = dis_eq;
      eq = eq;
      eq_usd = eq_usd;
      frozen_bal = frozen_bal;
      interest = interest;
      iso_eq = iso_eq;
      iso_liab = iso_liab;
      iso_upl = iso_upl;
      liab = liab;
      max_loan = max_loan;
      mgn_ratio = mgn_ratio;
      notional_lever = notional_lever;
      ord_frozen = ord_frozen;
      twap = twap;
      upl = upl;
      u_time = u_time;
      upl_liab = upl_liab;
      stgy_eq = stgy_eq;
      spot_in_use_amt = spot_in_use_amt;
    })

  -- `el.value()["details"]`, of a value that is no constant: a key that is missing is added, with null,
  -- which has no items.
  details_of : J → Result (List J)
  details_of j =
      if json.is_object j
      then (elim (find j (codes "details")) [ none ↦ ok [] | some v ↦ ok (items v) ])
      else err (foreign (codes "details"))

  -- The body of the loop of `Balance::fromJson`.
  balance_element : Balance J D → J → Result (Balance J D)
  unfolding details_of
  balance_element r j = do
    adj_eq ← read_decimal lib j (codes "adjEq") r.adj_eq
    imr ← read_decimal lib j (codes "imr") r.imr
    iso_eq ← read_decimal lib j (codes "isoEq") r.iso_eq
    mgn_ratio ← read_decimal lib j (codes "mgnRatio") r.mgn_ratio
    mmr ← read_decimal lib j (codes "mmr") r.mmr
    notional_usd ← read_decimal lib j (codes "notionalUsd") r.notional_usd
    ord_froz ← read_decimal lib j (codes "ordFroz") r.ord_froz
    total_eq ← read_decimal lib j (codes "totalEq") r.total_eq
    u_time ← read_int64 j (codes "uTime")
    details ← details_of j
    balance_details ←
        push_items lib (balance_detail_from_json (new_balance_detail decimal.nought))
          r.balance_details details
    ok (record r {
      adj_eq = adj_eq;
      imr = imr;
      iso_eq = iso_eq;
      mgn_ratio = mgn_ratio;
      mmr = mmr;
      notional_usd = notional_usd;
      ord_froz = ord_froz;
      total_eq = total_eq;
      u_time = u_time;
      balance_details = balance_details;
    })

  balance_elements : Balance J D → List J → Result (Balance J D)
  unfolding balance_element
  balance_elements r [] = ok r
  balance_elements r (j ∷ js) = balance_element r j >>= (λ r'. balance_elements r' js)

  -- `Balance::fromJson`.
  pub balance_from_json : Balance J D → J → Result (Balance J D)
  unfolding balance_elements
  balance_from_json r j = do
    response ← response_from_json lib r.response j
    balance_elements (record r { response = response }) (items response.body)
