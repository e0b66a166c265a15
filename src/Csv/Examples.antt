-- ===== src/Csv/Examples.antt =====
-- The readers on small files. A decimal is the text of its digits here; an empty text is refused.
use okx_cpp_api.Prelude.{
  ◌≡◌, refl, true, none, some, [], ◌∷◌, ◌++◌, map, arith, if◌then◌else◌, is_empty, All, Bytes,
  codes,
}
use okx_cpp_api.Prelude.Int.{pos, negsuc}
use okx_cpp_api.Models.{Decimal}
use okx_cpp_api.Csv.{
  optional_decimal, contains_ts, strip_cr, add_item, read_filled, read_line, read_lines, read_csv,
  getlines, candle_row, funding_row, parse_candles_csv, parse_funding_rate_csv, from_chars,
}
use okx_cpp_api.Csv.Unique.{first_of_each, present, IsUnique}
use okx_cpp_api.Csv.Pipeline.{
  filled_lines, data_rows, parse_candles_csv-first_of_each, parse_funding_rate_csv-first_of_each,
  parse_candles_csv-IsUnique,
}
use okx_cpp_api.Csv.Header.{first_row_lost}

abbrev text_decimal : Decimal Bytes
text_decimal = record { nought = codes "0"; of_text = λ s. if is_empty s then none else some s }

abbrev row : Bytes
row = codes "BTC-USDT,1,2,3,4,5,None,7,1700000000000,1"

-- A header, a row with a Windows line end, the row again, and an empty line.
abbrev file : Bytes
file = (codes "instrument_name,open" ++ (10 ∷ row)) ++ (13 ∷ 10 ∷ row ++ (10 ∷ 10 ∷ []))

file_candles :
    parse_candles_csv text_decimal file
    ≡ record {
      ts = pos 1_700_000_000_000;
      o = codes "1";
      h = codes "2";
      l = codes "3";
      c = codes "4";
      vol = codes "5";
      vol_ccy = codes "0";
      vol_ccy_quote = codes "7";
      confirm = true;
    }
      ∷ []
unfolding parse_candles_csv read_csv read_lines read_line read_filled add_item getlines strip_cr
    candle_row contains_ts optional_decimal from_chars
file_candles = refl

from_chars_runs :
    (from_chars (codes "-12x") ≡ some (negsuc 11))
    × (from_chars (codes "9223372036854775808") ≡ none)
unfolding from_chars
from_chars_runs = (refl, refl)

parse_candles_csv-first_of_each_example :
    parse_candles_csv text_decimal file
    ≡ first_of_each (λ c. c.ts) (present (map (candle_row text_decimal) (data_rows file)))
parse_candles_csv-first_of_each_example = parse_candles_csv-first_of_each text_decimal file

parse_funding_rate_csv-first_of_each_example :
    parse_funding_rate_csv text_decimal tt (codes "BTC-USDT-SWAP,0.01,1700000000000")
    ≡ first_of_each
        (λ r. r.funding_time)
        (present (
          map (funding_row text_decimal tt) (data_rows (codes "BTC-USDT-SWAP,0.01,1700000000000"))))
parse_funding_rate_csv-first_of_each_example =
    parse_funding_rate_csv-first_of_each text_decimal tt (codes "BTC-USDT-SWAP,0.01,1700000000000")

two_rows_IsUnique :
    let candles = parse_candles_csv text_decimal file in
    IsUnique (λ c. c.ts) candles × All (λ c. c.confirm ≡ true) candles
two_rows_IsUnique = parse_candles_csv-IsUnique text_decimal file

first_row_lost_example :
    parse_candles_csv text_decimal (row ++ (10 ∷ []))
    ≡ first_of_each
        (λ c. c.ts)
        (present
          (map (candle_row text_decimal) (map (getlines b',') (filled_lines (getlines 10 [])))))
first_row_lost_example =
    first_row_lost text_decimal b'B' b'T' (codes "C-USDT,1,2,3,4,5,None,7,1700000000000,1") [] refl
      (omega arith)
