-- ===== src/Csv/Rows.antt =====
-- What a row of a file gives.
use okx_cpp_api.Prelude.{◌≡◌, true, some, List, ◌∷◌, arith, Bytes}
use okx_cpp_api.Models.{Candle, Decimal}
use okx_cpp_api.Csv.{candle_row}

module _ {D : Type 0} (decimal : Decimal D) where
  open decimal use {of_text}

  -- A candle that a row gives is confirmed.
  pub candle_row_confirmed :
      (fields : List Bytes) (c : Candle D) → candle_row decimal fields ≡ some c → c.confirm ≡ true
  unfolding candle_row
  candle_row_confirmed (name ∷ o ∷ h ∷ l ∷ p ∷ v ∷ ccy ∷ quote_ccy ∷ time ∷ confirm ∷ rest) c e =
      ground arith
  candle_row_confirmed _ c e = cc
