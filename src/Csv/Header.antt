-- ===== src/Csv/Header.antt =====
-- The header rule against files without a header.
use okx_cpp_api.Prelude.{
  ℕ, ◌≡◌, ap, ◌∙◌, ◌≢◌, inl, inr, false, List, [], ◌∷◌, ◌++◌, map, arith, ◌==◌, Bool-cases, back,
  pop_back, All, Bytes,
}
use okx_cpp_api.Models.{Decimal}
use okx_cpp_api.Csv.{getlines, strip_cr, candle_row, parse_candles_csv, is_digit}
use okx_cpp_api.Csv.Unique.{first_of_each, present}
use okx_cpp_api.Csv.Pipeline.{filled_lines, skip_header, data_rows, parse_candles_csv-first_of_each}

getlines-append :
    (c x : ℕ) (xs t : Bytes)
    → All (λ y. y ≢ c) (x ∷ xs)
    → getlines c ((x ∷ xs) ++ (c ∷ t)) ≡ (x ∷ xs) ∷ getlines c t
unfolding getlines
getlines-append c x [] t (h, _) = ground arith
getlines-append c x (y ∷ ys) t (h, hs) = ground (arith, getlines-append c y ys t hs)

strip_cr_head : (x y : ℕ) (ys : Bytes) → (zs : Bytes) × (strip_cr (x ∷ y ∷ ys) ≡ x ∷ zs)
unfolding strip_cr
strip_cr_head x y ys = elim (Bool-cases (back y ys == 13)) [
  | inl h ↦ (pop_back (y ∷ ys), rw h)
  | inr h ↦ (y ∷ ys, rw h)
]

header_line :
    (lines : List Bytes) (raw : Bytes) (x : ℕ) (zs : Bytes)
    → strip_cr raw ≡ x ∷ zs
    → is_digit x ≡ false
    → skip_header (filled_lines (raw ∷ lines)) ≡ filled_lines lines
unfolding skip_header filled_lines
header_line lines raw x zs e h = rw (e, h)

-- If the first line of a candle file has two bytes or more and does not begin with a digit, the
-- file gives the candles of the lines behind it only. So in a file without a header the first row
-- is lost, as rows begin with the name of an instrument.
pub first_row_lost :
    {D : Type 0} (decimal : Decimal D) (x y : ℕ) (ys rest : Bytes)
    → is_digit x ≡ false
    → All (λ c. c ≢ 10) (x ∷ y ∷ ys)
    → parse_candles_csv decimal ((x ∷ y ∷ ys) ++ (10 ∷ rest))
      ≡ first_of_each
          (λ c. c.ts)
          (present
            (map (candle_row decimal) (map (getlines b',') (filled_lines (getlines 10 rest)))))
unfolding data_rows
first_row_lost decimal x y ys rest h free =
    let (zs, e) = strip_cr_head x y ys in
    parse_candles_csv-first_of_each decimal ((x ∷ y ∷ ys) ++ (10 ∷ rest))
    ∙ ap
        (λ ls.
          first_of_each (λ c. c.ts) (present (map (candle_row decimal) (map (getlines b',') ls))))
        (ap (λ ls. skip_header (filled_lines ls)) (getlines-append 10 x (y ∷ ys) rest free)
          ∙ header_line (getlines 10 rest) (x ∷ y ∷ ys) x zs e h)
