-- ===== src/Rest/Files/Complete.antt =====
-- That the download of candles succeeds, and what it gives, with `extractZip` as it is modelled in Zip.
use okx_cpp_api.Prelude.{
  ℕ, ◌≡◌, refl, sym, ap, ◌∙◌, true, some, List, [], ◌∷◌, ◌++◌, append-nil, append_assoc, Bytes,
  codes,
}
use okx_cpp_api.Prelude.Int.{ℤ}
use mathlib.Core.List.{Perm}
use okx_cpp_api.Result.{Result, ok}
use okx_cpp_api.Enums.{InstrumentType, MarketDataModule, DateAggrType, EnumText}
use okx_cpp_api.Models.{Candle, Decimal}
use okx_cpp_api.Models.Archive.{MarketDataFileInfo, MarketDataGroupDetail, MarketDataHistory}
use okx_cpp_api.Csv.{parse_candles_csv}
use okx_cpp_api.Http.{Network, Signer}
use okx_cpp_api.RateLimiter.{RateLimiter, wait}
use okx_cpp_api.Rest.{RestClient, Reading, get_and_read}
use okx_cpp_api.Rest.Files.{
  history_parameters, get_market_data_history, sort_candles, file_candles, group_candles,
  detail_candles, download_and_parse, download_and_parse_historical_candles,
}
use okx_cpp_api.Rest.Files.Sorted.{
  IsSorted, AreContents, nil, cons, candles_of, all_files, candles_of-append, sort_candles-IsSorted,
  sort_candles-perm,
}
use okx_cpp_api.Zip.{Minizip, extract_zip}

module _ {D : Type 0} (decimal : Decimal D) (network : Network) (version : Bytes)
    (minizip : Bytes → Minizip) where
  abbrev pub unzip : Bytes → Result Bytes
  unzip zip_data = (extract_zip minizip zip_data).1

  abbrev Unpacked : List MarketDataFileInfo → List Bytes → Type 0
  Unpacked = AreContents decimal network version unzip

  abbrev all_candles : List Bytes → List (Candle D)
  all_candles = candles_of decimal network version unzip

  Unpacked-split :
      (fs gs : List MarketDataFileInfo) (contents : List Bytes)
      → Unpacked (fs ++ gs) contents
      → (cs ds : List Bytes) × (contents ≡ cs ++ ds) × Unpacked fs cs × Unpacked gs ds
  Unpacked-split [] gs contents u = ([], contents, refl, nil, u)
  Unpacked-split (f ∷ fs) gs [] u = elim u [ ]
  Unpacked-split (f ∷ fs) gs (c ∷ contents) (cons _ zip _ _ _ d e u) =
      let (cs, ds, q, v, w) = Unpacked-split fs gs contents u in
      (c ∷ cs, ds, ap (λ l. c ∷ l) q, cons f zip c fs cs d e v, w)

  group_candles-Unpacked :
      (files : List MarketDataFileInfo) (contents : List Bytes) (before : List (Candle D))
      → Unpacked files contents
      → group_candles decimal network version unzip before files
        ≡ ok (before ++ all_candles contents)
  unfolding group_candles file_candles
  group_candles-Unpacked [] [] before nil = rw append-nil refl
  group_candles-Unpacked [] (c ∷ contents) before u = elim u [ ]
  group_candles-Unpacked (f ∷ files) [] before u = elim u [ ]
  group_candles-Unpacked (f ∷ files) (c ∷ contents) before (cons _ zip _ _ _ d e u) =
      rw (d, e)
        (group_candles-Unpacked files contents (before ++ parse_candles_csv decimal c) u
          ∙ ap ok (append_assoc before (parse_candles_csv decimal c) (all_candles contents)))

  detail_candles-Unpacked :
      (details : List MarketDataGroupDetail) (contents : List Bytes) (before : List (Candle D))
      → Unpacked (all_files details) contents
      → detail_candles decimal network version unzip before details
        ≡ ok (before ++ all_candles contents)
  unfolding detail_candles
  detail_candles-Unpacked [] [] before nil = rw append-nil refl
  detail_candles-Unpacked [] (c ∷ contents) before u = elim u [ ]
  detail_candles-Unpacked (g ∷ details) contents before u =
      let (cs, ds, q, v, w) = Unpacked-split g.group_details (all_files details) contents u in
      rw (group_candles-Unpacked g.group_details cs before v) (
        detail_candles-Unpacked details ds (before ++ all_candles cs) w
        ∙ (ap ok (append_assoc before (all_candles cs) (all_candles ds))
            ∙ ap (λ l. ok (before ++ l))
                (sym (candles_of-append decimal network version unzip cs ds)
                  ∙ ap all_candles (sym q))))

  -- When the limiter lets the call pass, the exchange answers with a list of files, and every file of
  -- every group downloads and unpacks, `downloadAndParseHistoricalCandles` gives the candles of the
  -- texts in all of the files, each as often as they hold it, with the oldest first; of the client only
  -- the limiter has changed.
  pub download_historical_candles-IsSorted :
      {I : Type 0} (to_string : ℤ → Bytes) (types : EnumText InstrumentType)
      (aggregations : EnumText DateAggrType) (signer : Signer) (stoi : Bytes → Result ℤ)
      (client : RestClient I) (now : ℕ) (later : ℕ → ℕ) (ts : Bytes)
      (from_json : Bytes → Result (Reading MarketDataHistory)) (inst_type : InstrumentType)
      (inst_family : Bytes) (date_aggr_type : DateAggrType) (begin end : ℤ) (limiter : RateLimiter)
      (time : ℕ) (history : MarketDataHistory) (contents : List Bytes)
      → wait client.market_data_history_limiter now later ≡ some (limiter, time)
      → get_and_read network version signer stoi client.http_session ts from_json
          (codes "/api/v5/public/market-data-history")
          (history_parameters to_string types aggregations MarketDataModule.candles1m inst_type
            inst_family date_aggr_type begin end)
          true
        ≡ ok history
      → Unpacked (all_files history.details) contents
      → (out : List (Candle D)) × (download_and_parse_historical_candles decimal network version
            unzip to_string types aggregations signer stoi client now later ts from_json inst_type
            inst_family date_aggr_type begin end
          ≡ some (record client { market_data_history_limiter = limiter }, time, ok out))
        × IsSorted out
        × Perm out (all_candles contents)
  unfolding download_and_parse_historical_candles get_market_data_history download_and_parse
  download_historical_candles-IsSorted to_string types aggregations signer stoi client now later ts
        from_json inst_type inst_family date_aggr_type begin end limiter time history contents
        waited answered unpacked =
      (
        sort_candles (all_candles contents),
        rw
            (
              download_and_parse_historical_candles,
              get_market_data_history,
              waited,
              answered,
              detail_candles-Unpacked history.details contents [] unpacked,
            )
            refl,
        sort_candles-IsSorted (all_candles contents),
        sort_candles-perm (all_candles contents),
      )
