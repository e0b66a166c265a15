-- ===== src/Csv.antt =====
-- src/okx_market_data_utils.cpp, its CSV readers. Texts are bytes. The counters and the messages of
-- the log are not modelled; `extractZip` is all calls of minizip and is a parameter elsewhere.
pub mod Unique
pub mod Rows
pub mod Pipeline
pub mod Header
mod Examples
use okx_cpp_api.Prelude.{
  ◌^◌, ℕ, ◌+◌, ◌-◌, ◌*◌, Bool, true, false, not, ◌&&◌, ◌||◌, Option, none, some, List, [], ◌∷◌,
  ◌++◌, ltb, leb, ◌==◌, if◌then◌else◌, back, pop_back, is_empty, Bytes, codes, bytes_eq,
}
use okx_cpp_api.Prelude.Int.{ℤ, pos, negsuc, eqb_ℤ}
use okx_cpp_api.Models.{Candle, Decimal, FundingRate, new_funding_rate}

abbrev push_front : ℕ → List Bytes → List Bytes
push_front x [] = (x ∷ []) ∷ []
push_front x (l ∷ ls) = (x ∷ l) ∷ ls

-- All that `std::getline(stream, line, delim)` reads from a stream, until it fails: a line that ends
-- at the end of the stream counts only if it has a byte.
unfoldable pub getlines : ℕ → Bytes → List Bytes
getlines delim [] = []
getlines delim (c ∷ cs) =
    let rest = getlines delim cs in if c == delim then [] ∷ rest else push_front c rest

-- "Handle Windows line endings (remove trailing \r)"; 13 is '\r'.
unfoldable pub strip_cr : Bytes → Bytes
strip_cr [] = []
strip_cr (c ∷ cs) = if back c cs == 13 then pop_back (c ∷ cs) else c ∷ cs

abbrev pub is_digit : ℕ → Bool
is_digit c = leb b'0' c && leb c b'9'

-- "Check if this looks like a header".
abbrev pub looks_like_header : Bytes → Bool
looks_like_header [] = false
looks_like_header (c ∷ cs) = not (is_digit c)

-- The value of the digits at the head of a text.
digits_value : ℕ → Bytes → ℕ
digits_value acc [] = acc
digits_value acc (c ∷ cs) =
    let rest = digits_value (acc * 10 + (c - b'0')) cs in if is_digit c then rest else acc

abbrev starts_with_digit : Bytes → Bool
starts_with_digit [] = false
starts_with_digit (c ∷ cs) = is_digit c

-- `std::from_chars` into an `int64_t`, in base 10: the value if no error is reported.
unfoldable pub from_chars : Bytes → Option ℤ
unfolding digits_value
from_chars [] = none
from_chars (c ∷ cs) =
    if c == b'-'
    then (let n = digits_value 0 cs in
        if starts_with_digit cs && leb n (2 ^ 63)
        then some (if n == 0 then pos 0 else negsuc (n - 1))
        else none)
    else (let n = digits_value 0 (c ∷ cs) in
        if is_digit c && ltb n (2 ^ 63) then some (pos n) else none)

-- The time stamp of a row: 0, as the record is made, unless the field is read without an error.
abbrev timestamp : Bytes → ℤ
timestamp field = elim (from_chars field) [ none ↦ pos 0 | some ts ↦ ts ]

unfoldable pub contains_ts : List ℤ → ℤ → Bool
contains_ts [] t = false
contains_ts (u ∷ us) t = eqb_ℤ u t || contains_ts us t

-- The variables of a reading loop: `isFirstLine`, `seenTimestamps` and the vector of the result.
pub record Reader (A : Type 0) : Type 0 where
  pub is_first_line : Bool
  pub seen_timestamps : List ℤ
  pub items : List A

abbrev new_reader : {A : Type 0} → Reader A
new_reader = record { is_first_line = true; seen_timestamps = []; items = [] }

-- The body of the loops of both readers; `row` is what the body does with the fields of a line, and
-- is `none` where it goes on with the next line, `key` is the time stamp of the item.
module _ {A : Type 0} (key : A → ℤ) (row : List Bytes → Option A) where
  -- From "deduplicate by timestamp" on.
  unfoldable pub add_item : Reader A → Option A → Reader A
  unfolding contains_ts
  add_item s none = s
  add_item s (some a) =
      if contains_ts s.seen_timestamps (key a)
      then s
      else record s { seen_timestamps = key a ∷ s.seen_timestamps; items = s.items ++ (a ∷ []) }

  -- The body for a line that is not empty once its '\r' is gone.
  unfoldable pub read_filled : Reader A → Bytes → Reader A
  read_filled s line =
      let s' = record s { is_first_line = false } in
      if s.is_first_line && looks_like_header line
      then s'
      else add_item s' (row (getlines b',' line))

  unfoldable pub read_line : Reader A → Bytes → Reader A
  read_line s raw = let line = strip_cr raw in if is_empty line then s else read_filled s line

  unfoldable pub read_lines : Reader A → List Bytes → Reader A
  read_lines s [] = s
  read_lines s (line ∷ lines) = read_lines (read_line s line) lines

  -- `while (std::getline(stream, line))`; 10 is '\n'.
  unfoldable pub read_csv : Bytes → List A
  read_csv content = (read_lines new_reader (getlines 10 content)).items

module _ {D : Type 0} (decimal : Decimal D) where
  open decimal use {nought, of_text}

  infixl 5 ◌>>=◌
  abbrev ◌>>=◌ : {A B : Type 0} → Option A → (A → Option B) → Option B
  none >>= f = none
  some a >>= f = f a

  -- "may be None".
  unfoldable pub optional_decimal : Bytes → Option D
  optional_decimal field =
      if bytes_eq field (codes "None") || is_empty field then some nought else of_text field

  -- A row of the candle files: too few fields, an exception of a decimal, or a candle that is not
  -- confirmed leave no candle.
  unfoldable pub candle_row : List Bytes → Option (Candle D)
  unfolding optional_decimal from_chars
  candle_row
        (name ∷ open_price ∷ high ∷ low ∷ close ∷ volume ∷ vol_ccy ∷ vol_quote ∷ open_time ∷ confirm
          ∷ _) =
      do
        o ← of_text open_price
        h ← of_text high
        l ← of_text low
        c ← of_text close
        vol ← of_text volume
        ccy ← optional_decimal vol_ccy
        quote_ccy ← optional_decimal vol_quote
        let confirmed =
            bytes_eq confirm (codes "1")
            || (bytes_eq confirm (codes "true") || bytes_eq confirm (codes "True"))
        if confirmed
            then some (record {
              ts = timestamp open_time;
              o = o;
              h = h;
              l = l;
              c = c;
              vol = vol;
              vol_ccy = ccy;
              vol_ccy_quote = quote_ccy;
              confirm = confirmed;
            })
            else none
  candle_row _ = none

  -- `utils::parseCandlesCsv`.
  unfoldable pub parse_candles_csv : Bytes → List (Candle D)
  parse_candles_csv content = read_csv (λ c. c.ts) candle_row content

  module _ {J : Type 0} (null : J) where
    -- The rate of a row, by its instrument, its rate and the field that holds its time.
    funding_fields : Bytes → Bytes → Bytes → Option (FundingRate J D)
    unfolding from_chars
    funding_fields inst_id rate time_field =
        if bytes_eq rate (codes "None") || is_empty rate then none else do
          r ← of_text rate
          let initial = new_funding_rate {J = J} {D = D} null nought
          some (record initial {
            inst_id = inst_id;
            funding_rate = r;
            funding_time = timestamp time_field;
          })

    -- A row of the funding files: three fields with the time last, or four and more with the time
    -- in the fourth.
    pub funding_row : List Bytes → Option (FundingRate J D)
    unfolding funding_fields
    funding_row (a ∷ b ∷ c ∷ []) = funding_fields a b c
    funding_row (a ∷ b ∷ c ∷ d ∷ _) = funding_fields a b d
    funding_row _ = none

    -- `utils::parseFundingRateCsv`.
    pub parse_funding_rate_csv : Bytes → List (FundingRate J D)
    parse_funding_rate_csv content = read_csv (λ r. r.funding_time) funding_row content
