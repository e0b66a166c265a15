-- ===== src/Rest/Files.antt =====
-- The candle files of src/okx_rest_client.cpp: the list of files, their downloads, and the candles
-- in them, sorted by time. `extract_zip` stands for `utils::extractZip`, which is calls of minizip.
pub mod Sorted
pub mod Complete
mod Examples
use okx_cpp_api.Prelude.{
  ℕ, ◌+◌, ◌-◌, Bool, true, false, Option, none, some, List, [], ◌∷◌, ◌++◌, if◌then◌else◌, Bytes,
  codes,
}
use okx_cpp_api.Prelude.Int.{ℤ, pos, ltb_ℤ}
use okx_cpp_api.Result.{Result, ok, ◌>>=◌}
use okx_cpp_api.Enums.{InstrumentType, spot, MarketDataModule, module_value, DateAggrType, EnumText}
use okx_cpp_api.Models.Archive.{MarketDataFileInfo, MarketDataGroupDetail, MarketDataHistory}
use okx_cpp_api.Models.{Candle, Decimal}
use okx_cpp_api.Csv.{parse_candles_csv}
use okx_cpp_api.RateLimiter.{wait}
use okx_cpp_api.Http.{Parameters, insert_or_assign, Signer, Network, download_binary}
use okx_cpp_api.Rest.{RestClient, Reading, get_and_read}

-- `instType == InstrumentType::SPOT`.
abbrev is_spot : InstrumentType → Bool
is_spot spot = true
is_spot _ = false

module _ (to_string : ℤ → Bytes) (types : EnumText InstrumentType)
    (aggregations : EnumText DateAggrType) where
  -- The parameters of `RESTClient::getMarketDataHistory`.
  pub history_parameters :
      MarketDataModule → InstrumentType → Bytes → DateAggrType → ℤ → ℤ → Parameters
  history_parameters module_id inst_type family_or_ids date_aggr_type begin end =
      let with_type =
        insert_or_assign (codes "instType") (types.enum_name inst_type)
          (insert_or_assign (codes "module") (to_string (pos (module_value module_id))) []) in
      let with_ids =
        if is_spot inst_type
        then insert_or_assign (codes "instIdList") family_or_ids with_type
        else insert_or_assign (codes "instFamilyList") family_or_ids with_type in
      insert_or_assign (codes "end") (to_string end) (
        insert_or_assign (codes "begin") (to_string begin) (
          insert_or_assign (codes "dateAggrType") (aggregations.enum_name date_aggr_type) with_ids))

-- `RESTClient::getMarketDataHistory`, with its parameters and the time that the limiter records; `none`
-- is undefined behaviour in the limiter.
unfoldable pub get_market_data_history :
    {I : Type 0}
    → Network
    → Bytes
    → Signer
    → (Bytes → Result ℤ)
    → RestClient I
    → ℕ
    → (ℕ → ℕ)
    → Bytes
    → (Bytes → Result (Reading MarketDataHistory))
    → Parameters
    → Option (RestClient I × ℕ × Result MarketDataHistory)
get_market_data_history network version signer stoi client now later ts from_json parameters =
    elim (wait client.market_data_history_limiter now later) [
      | none ↦ none
      | some (limiter, time) ↦ some (
        record client { market_data_history_limiter = limiter },
        time,
        get_and_read network version signer stoi client.http_session ts from_json
            (codes "/api/v5/public/market-data-history") parameters true,
      )
    ]

-- `std::ranges::sort` by `a.ts < b.ts`. The standard leaves the order of equal time stamps open;
-- here they keep theirs.
pub insert_candle : {D : Type 0} → Candle D → List (Candle D) → List (Candle D)
insert_candle c [] = c ∷ []
insert_candle c (d ∷ ds) = if ltb_ℤ d.ts c.ts then d ∷ insert_candle c ds else c ∷ d ∷ ds

pub sort_candles : {D : Type 0} → List (Candle D) → List (Candle D)
unfolding insert_candle
sort_candles [] = []
sort_candles (c ∷ cs) = insert_candle c (sort_candles cs)

module _ {D : Type 0} (decimal : Decimal D) (network : Network) (version : Bytes)
    (extract_zip : Bytes → Result Bytes) where
  -- The body of the inner loop, up to `parseCandlesCsv`.
  pub file_candles : MarketDataFileInfo → Result (List (Candle D))
  file_candles file_info = download_binary network version file_info.url >>= (λ zip_data.
      extract_zip zip_data >>= (λ csv_data. ok (parse_candles_csv decimal csv_data)))

  -- `for (const auto &fileInfo: detail.groupDetails)`.
  pub group_candles : List (Candle D) → List MarketDataFileInfo → Result (List (Candle D))
  unfolding file_candles
  group_candles all_candles [] = ok all_candles
  group_candles all_candles (file_info ∷ files) =
      file_candles file_info >>= (λ candles. group_candles (all_candles ++ candles) files)

  -- `for (const auto &detail: history.details)`.
  pub detail_candles : List (Candle D) → List MarketDataGroupDetail → Result (List (Candle D))
  unfolding group_candles
  detail_candles all_candles [] = ok all_candles
  detail_candles all_candles (detail ∷ details) =
      group_candles all_candles detail.group_details >>= (λ candles. detail_candles candles details)

  -- `RESTClient::downloadAndParseHistoricalCandles`, from its `history` on.
  pub download_and_parse : MarketDataHistory → Result (List (Candle D))
  unfolding detail_candles
  download_and_parse history =
      detail_candles [] history.details >>= (λ all_candles. ok (sort_candles all_candles))

  -- `RESTClient::downloadAndParseHistoricalCandles`: the client and the time of the request for the list
  -- of files as `getMarketDataHistory` leaves them, and the candles.
  pub download_and_parse_historical_candles :
      {I : Type 0} (to_string : ℤ → Bytes) (types : EnumText InstrumentType)
      (aggregations : EnumText DateAggrType) (signer : Signer) (stoi : Bytes → Result ℤ)
      (client : RestClient I) (now : ℕ) (later : ℕ → ℕ) (ts : Bytes)
      (from_json : Bytes → Result (Reading MarketDataHistory))
      → InstrumentType
      → Bytes
      → DateAggrType
      → ℤ
      → ℤ
      → Option (RestClient I × ℕ × Result (List (Candle D)))
  unfolding download_and_parse history_parameters get_market_data_history
  download_and_parse_historical_candles to_string types aggregations signer stoi client now later ts
        from_json inst_type inst_family date_aggr_type begin end =
      elim (get_market_data_history network version signer stoi client now later ts from_json (
        history_parameters to_string types aggregations MarketDataModule.candles1m inst_type
          inst_family date_aggr_type begin end)) [
            | none ↦ none
            | some (client', time, history) ↦ some (client', time, history >>= download_and_parse)
          ]
