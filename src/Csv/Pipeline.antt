-- ===== src/Csv/Pipeline.antt =====
-- The reading loops as a pipeline: lines, no empty ones, no header, rows, the first of each stamp.
use okx_cpp_api.Prelude.{
  ◌≡◌, refl, ap, ◌∙◌, inl, inr, true, false, Option, none, some, List, [], ◌∷◌, map, arith,
  if◌then◌else◌, Bool-cases, Option-cases, is_empty, All, Bytes,
}
use okx_cpp_api.Prelude.Int.{ℤ}
use okx_cpp_api.Models.{Decimal}
use okx_cpp_api.Csv.{
  new_reader, read_filled, Reader, getlines, strip_cr, looks_like_header, add_item, read_line,
  read_lines, read_csv, candle_row, parse_candles_csv, funding_row, parse_funding_rate_csv,
}
use okx_cpp_api.Csv.Rows.{candle_row_confirmed}
use okx_cpp_api.Csv.Unique.{
  first_of_each, present, add_items, add_items_new, IsUnique, first_of_each-IsUnique,
  first_of_each-All,
}

-- The lines that hold something, without their '\r'.
unfoldable pub filled_lines : List Bytes → List Bytes
filled_lines [] = []
filled_lines (raw ∷ lines) =
    if is_empty (strip_cr raw) then filled_lines lines else strip_cr raw ∷ filled_lines lines

-- All but a first line that does not begin with a digit.
unfoldable pub skip_header : List Bytes → List Bytes
skip_header [] = []
skip_header (line ∷ lines) = if looks_like_header line then lines else line ∷ lines

-- The fields of each line of data of a file.
unfoldable pub data_rows : Bytes → List (List Bytes)
data_rows content = map (getlines b',') (skip_header (filled_lines (getlines 10 content)))

module _ {A : Type 0} (key : A → ℤ) (row : List Bytes → Option A) where
  abbrev row_of : Bytes → Option A
  row_of line = row (getlines b',' line)

  add_item_first :
      (s : Reader A)
      → s.is_first_line ≡ false
      → (r : Option A) → (add_item key row s r).is_first_line ≡ false
  unfolding add_item
  add_item_first s h none = h
  add_item_first s h (some a) = ground arith

  read_filled_past :
      (s : Reader A) (line : Bytes)
      → s.is_first_line ≡ false
      → read_filled key row s line ≡ add_item key row s (row_of line)
  unfolding read_filled
  read_filled_past s line h = ground arith

  read_line_empty :
      (s : Reader A) (raw : Bytes) → is_empty (strip_cr raw) ≡ true → read_line key row s raw ≡ s
  unfolding read_line
  read_line_empty s raw e = rw e

  -- A line of data, when the header is past.
  read_line_filled :
      (s : Reader A) (raw : Bytes)
      → s.is_first_line ≡ false
      → is_empty (strip_cr raw) ≡ false
      → read_line key row s raw ≡ add_item key row s (row_of (strip_cr raw))
  unfolding read_line
  read_line_filled s raw h e = ground (arith, read_filled_past s (strip_cr raw) h)

  read_lines-add_items :
      (s : Reader A) (lines : List Bytes)
      → s.is_first_line ≡ false
      → read_lines key row s lines ≡ add_items key row s (map row_of (filled_lines lines))
  unfolding read_lines add_items filled_lines
  read_lines-add_items s [] h = refl
  read_lines-add_items s (raw ∷ lines) h = elim (Bool-cases (is_empty (strip_cr raw))) [
    | inl e ↦
        ap (λ u. read_lines key row u lines) (read_line_empty s raw e)
        ∙ rw e (read_lines-add_items s lines h)
    | inr e ↦
        let s' = add_item key row s (row_of (strip_cr raw)) in
        ap (λ u. read_lines key row u lines) (read_line_filled s raw h e)
        ∙ rw e (read_lines-add_items s' lines (add_item_first s h (row_of (strip_cr raw))))
  ]

  abbrev started : Reader A
  started = record { is_first_line = false; seen_timestamps = []; items = [] }

  read_line_header :
      (raw : Bytes)
      → is_empty (strip_cr raw) ≡ false
      → looks_like_header (strip_cr raw) ≡ true
      → read_line key row new_reader raw ≡ started
  unfolding read_line read_filled
  read_line_header raw e h = rw (e, h)

  read_line_first :
      (raw : Bytes)
      → is_empty (strip_cr raw) ≡ false
      → looks_like_header (strip_cr raw) ≡ false
      → read_line key row new_reader raw ≡ add_item key row started (row_of (strip_cr raw))
  unfolding read_line read_filled
  read_line_first raw e h = rw (e, h)

  -- The whole loop, from its start.
  read_lines_new :
      (lines : List Bytes)
      → (read_lines key row new_reader lines).items
        ≡ first_of_each key (present (map row_of (skip_header (filled_lines lines))))
  unfolding read_lines filled_lines skip_header add_items first_of_each present
  read_lines_new [] = add_items_new key row true []
  read_lines_new (raw ∷ lines) =
      let line = strip_cr raw in
      let rest = map row_of (filled_lines lines) in
      let go = λ (u : Reader A). (read_lines key row u lines).items in
      elim (Bool-cases (is_empty line)) [
        | inl e ↦ ap go (read_line_empty new_reader raw e) ∙ rw e (read_lines_new lines)
        | inr e ↦ elim (Bool-cases (looks_like_header line)) [
          | inl h ↦
              ap go (read_line_header raw e h)
              ∙ (ap (λ u. u.items) (read_lines-add_items started lines refl)
                  ∙ rw (e, h) (add_items_new key row false rest))
          | inr h ↦
              let s = add_item key row started (row_of line) in
              ap go (read_line_first raw e h)
              ∙ (ap (λ u. u.items)
                    (read_lines-add_items s lines (add_item_first started refl (row_of line)))
                  ∙ rw (e, h) (add_items_new key row false (row_of line ∷ rest)))
        ]
      ]

  map-row_of : (lines : List Bytes) → map row_of lines ≡ map row (map (getlines b',') lines)
  map-row_of [] = refl
  map-row_of (l ∷ ls) = ap (◌∷◌ (row_of l)) (map-row_of ls)

  read_csv-first_of_each :
      (content : Bytes)
      → read_csv key row content ≡ first_of_each key (present (map row (data_rows content)))
  unfolding read_csv data_rows
  read_csv-first_of_each content =
      read_lines_new (getlines 10 content)
      ∙ ap (λ rs. first_of_each key (present rs))
          (map-row_of (skip_header (filled_lines (getlines 10 content))))

module _ {D : Type 0} (decimal : Decimal D) where
  -- For any bytes, `parseCandlesCsv` gives the candles of the rows of data, in the order of the file
  -- and with one candle, the first, for each time stamp: the loop over lines with its set of stamps
  -- is the pipeline of lines, no empty lines, no header, fields, candles, first of each stamp.
  pub parse_candles_csv-first_of_each :
      (content : Bytes)
      → parse_candles_csv decimal content
        ≡ first_of_each (λ c. c.ts) (present (map (candle_row decimal) (data_rows content)))
  unfolding parse_candles_csv
  parse_candles_csv-first_of_each content =
      read_csv-first_of_each (λ c. c.ts) (candle_row decimal) content

  -- For any bytes, `parseFundingRateCsv` gives the rates of the rows of data, in the order of the file and
  -- with one rate, the first, for each funding time, by the same pipeline.
  pub parse_funding_rate_csv-first_of_each :
      {J : Type 0} (null : J) (content : Bytes)
      → parse_funding_rate_csv decimal null content
        ≡ first_of_each
            (λ r. r.funding_time)
            (present (map (funding_row decimal null) (data_rows content)))
  unfolding parse_funding_rate_csv
  parse_funding_rate_csv-first_of_each null content =
      read_csv-first_of_each (λ r. r.funding_time) (funding_row decimal null) content

  present_confirmed :
      (rows : List (List Bytes))
      → All (λ c. c.confirm ≡ true) (present (map (candle_row decimal) rows))
  unfolding present
  present_confirmed [] = tt
  present_confirmed (r ∷ rows) = elim (Option-cases (candle_row decimal r)) [
    | inl e ↦ rw e (present_confirmed rows)
    | inr (c, e) ↦ rw e (candle_row_confirmed decimal r c e, present_confirmed rows)
  ]

  -- For any bytes, every candle that `parseCandlesCsv` gives is confirmed, and no two have one time
  -- stamp.
  pub parse_candles_csv-IsUnique :
      (content : Bytes)
      → let candles = parse_candles_csv decimal content in
        IsUnique (λ c. c.ts) candles × All (λ c. c.confirm ≡ true) candles
  parse_candles_csv-IsUnique content =
      let rows = present (map (candle_row decimal) (data_rows content)) in
      rw (parse_candles_csv-first_of_each content) (
        first_of_each-IsUnique (λ c. c.ts) rows,
        first_of_each-All (λ c. c.ts) (λ c. c.confirm ≡ true) rows
            (present_confirmed (data_rows content)),
      )
