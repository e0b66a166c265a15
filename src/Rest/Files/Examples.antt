-- ===== src/Rest/Files/Examples.antt =====
-- A download of two small files, the later one first.
use okx_cpp_api.Prelude.{
  ℕ, ◌+◌, ◌≡◌, refl, true, none, some, List, [], ◌∷◌, ◌++◌, if◌then◌else◌, Bytes, codes, bytes_eq,
}
use mathlib.Core.List.{Perm}
use okx_cpp_api.Prelude.Int.{ℤ, pos}
use okx_cpp_api.Result.{Result, ok, err}
use okx_cpp_api.Enums.{daily, swap}
use okx_cpp_api.Models.{Candle, Decimal}
use okx_cpp_api.Csv.{
  parse_candles_csv, read_csv, read_lines, read_line, read_filled, add_item, getlines, strip_cr,
  candle_row, contains_ts, optional_decimal, from_chars,
}
use okx_cpp_api.Http.{
  Network, Signer, http_get, split_url, download_binary, find_slash, strip_prefix,
}
use okx_cpp_api.Models.Archive.{MarketDataFileInfo, MarketDataHistory}
use okx_cpp_api.Rest.Files.{
  insert_candle, sort_candles, file_candles, group_candles, detail_candles, download_and_parse,
  download_and_parse_historical_candles,
}
use okx_cpp_api.Models.Tree.{type_names, aggregation_names}
use okx_cpp_api.RateLimiter.{new_rate_limiter, wait, remove_old}
use okx_cpp_api.Rest.{
  RestClient, Reading, new_rest_client, get_and_read, check_response, handle_okx_response,
}
use okx_cpp_api.Zip.{
  Minizip, extract_zip, extract_with_stream, extract_first, open_and_extract, extract_entry,
  to_int32,
}
use okx_cpp_api.Rest.Files.Complete.{download_historical_candles-IsSorted}
use okx_cpp_api.Rest.Files.Sorted.{
  IsSorted, AreContents, nil, cons, candles_of, all_files, download_and_parse-IsSorted,
}

abbrev text_decimal : Decimal Bytes
text_decimal = record { nought = []; of_text = λ s. some s }

-- A file is served under its path, and is unpacked to a header and one row.
abbrev files : Network
files host req = ok (record { result_int = 200; body = req.target })

abbrev unzip : Bytes → Result Bytes
unzip zip =
    if bytes_eq zip (codes "/1")
    then ok (codes "name" ++ (10 ∷ codes "BTC,1,1,1,1,1,,,200,1"))
    else ok (codes "name" ++ (10 ∷ codes "BTC,2,2,2,2,2,,,100,1"))

abbrev file_info : Bytes → MarketDataFileInfo
file_info url = record { filename = []; date_ts = pos 0; size_mb = []; url = url }

abbrev history : MarketDataHistory
history = record {
  ts = pos 0;
  total_size_mb = [];
  date_aggr_type = daily;
  details =
      record {
        inst_id = [];
        inst_family = codes "BTC-USDT";
        inst_type = swap;
        date_range_start = pos 0;
        date_range_end = pos 0;
        group_size_mb = [];
        group_details = file_info (codes "https://h/1") ∷ file_info (codes "https://h/2") ∷ [];
      }
      ∷ [];
}

abbrev candle : ℕ → Bytes → Candle Bytes
candle ts price = record {
  ts = pos ts;
  o = price;
  h = price;
  l = price;
  c = price;
  vol = price;
  vol_ccy = [];
  vol_ccy_quote = [];
  confirm = true;
}

one_file-IsSorted :
    (contents : List Bytes) × AreContents text_decimal files [] unzip
      (all_files history.details)
      contents
    × IsSorted (candle 100 (codes "2") ∷ candle 200 (codes "1") ∷ [])
    × Perm
        (candle 100 (codes "2") ∷ candle 200 (codes "1") ∷ [])
        (candles_of text_decimal files [] unzip contents)
unfolding download_and_parse detail_candles group_candles file_candles download_binary split_url
    find_slash strip_prefix parse_candles_csv read_csv read_lines read_line read_filled add_item
    getlines strip_cr candle_row contains_ts optional_decimal from_chars sort_candles insert_candle
one_file-IsSorted =
    download_and_parse-IsSorted text_decimal files [] unzip history
      (candle 100 (codes "2") ∷ candle 200 (codes "1") ∷ []) refl

-- An archive that minizip reads, with the text that `unzip` gives.
abbrev archive : Bytes → Minizip
archive zip = record {
  stream_created = true;
  reader_created = true;
  reader_opened = true;
  first_found = true;
  entry_info = some 40;
  entry_opened = true;
  entry_read = λ size. elim (unzip zip) [ ok text ↦ some text | err e ↦ none ];
}

abbrev no_signer : Signer
no_signer = record { sign = λ secret message. [] }

abbrev stoi : Bytes → Result ℤ
stoi s = if bytes_eq s (codes "0") then ok (pos 0) else ok (pos 1)

abbrev read_history : Bytes → Result (Reading MarketDataHistory)
read_history body = ok (record { code = codes "0"; msg = []; value = history })

abbrev fresh : RestClient ℕ
fresh = new_rest_client [] [] []

abbrev no_text : ℤ → Bytes
no_text n = []

unpacked :
    AreContents text_decimal files []
      (λ zip. (extract_zip archive zip).1)
      (all_files history.details)
      ((codes "name" ++ (10 ∷ codes "BTC,1,1,1,1,1,,,200,1"))
        ∷ (codes "name" ++ (10 ∷ codes "BTC,2,2,2,2,2,,,100,1"))
        ∷ [])
unfolding download_binary split_url find_slash strip_prefix extract_zip extract_with_stream
    extract_first open_and_extract extract_entry to_int32
unpacked =
    cons (file_info (codes "https://h/1")) (codes "/1") _ _ _ refl refl
      (cons (file_info (codes "https://h/2")) (codes "/2") _ [] [] refl refl nil)

download_historical_candles-IsSorted_example :
    (out : List (Candle Bytes)) × (download_and_parse_historical_candles text_decimal files []
        (λ zip. (extract_zip archive zip).1)
        no_text
        type_names
        aggregation_names
        no_signer
        stoi
        fresh
        9
        (λ d. 9 + d)
        []
        read_history
        swap
        (codes "BTC-USDT")
        daily
        (pos 0)
        (pos 300)
      ≡ some (
        record fresh {
          market_data_history_limiter = record (new_rate_limiter 1 1000) { request_times = 9 ∷ [] };
        },
        9,
        ok out,
      ))
    × IsSorted out
    × Perm out (
        candles_of text_decimal files []
          (λ zip. (extract_zip archive zip).1)
          ((codes "name" ++ (10 ∷ codes "BTC,1,1,1,1,1,,,200,1"))
            ∷ (codes "name" ++ (10 ∷ codes "BTC,2,2,2,2,2,,,100,1"))
            ∷ []))
unfolding new_rest_client wait remove_old get_and_read http_get check_response handle_okx_response
download_historical_candles-IsSorted_example =
    download_historical_candles-IsSorted text_decimal files [] archive no_text type_names
      aggregation_names no_signer stoi fresh 9 (λ d. 9 + d) [] read_history swap (codes "BTC-USDT")
      daily (pos 0) (pos 300) (record (new_rate_limiter 1 1000) { request_times = 9 ∷ [] }) 9
      history _ refl refl unpacked
