-- ===== src/Models/Archive/Examples.antt =====
-- A list with one group of two files.
use okx_cpp_api.Prelude.{ℕ, ◌≡◌, [], ◌∷◌, codes}
use okx_cpp_api.Prelude.Int.{pos}
use okx_cpp_api.Result.{ok}
use okx_cpp_api.Enums.{swap, monthly}
use okx_cpp_api.Models.Base.{new_response}
use okx_cpp_api.Models.Tree.{
  Tree, null, tree, tree-IsModelJson, signed_text, type_names, aggregation_names,
}
use okx_cpp_api.Models.Archive.{
  MarketDataFileInfo, MarketDataHistory, new_history, history_from_json, history_to_json,
}
use okx_cpp_api.Models.Archive.Roundtrip.{wrapped, history_roundtrip}

abbrev file_info : ℕ → MarketDataFileInfo
file_info n = record {
  filename = codes "a.zip";
  date_ts = pos n;
  size_mb = codes "1.5";
  url = codes "https://h/a";
}

abbrev two_files : MarketDataHistory
two_files = record {
  ts = pos 9;
  total_size_mb = codes "3";
  date_aggr_type = monthly;
  details =
      record {
        inst_id = [];
        inst_family = codes "BTC-USDT";
        inst_type = swap;
        date_range_start = pos 1;
        date_range_end = pos 2;
        group_size_mb = codes "3";
        group_details = file_info 1 ∷ file_info 2 ∷ [];
      }
      ∷ [];
}

abbrev two_files_json : Tree
two_files_json = history_to_json tree signed_text type_names aggregation_names two_files

history_roundtrip_example :
    history_from_json tree (new_response null) new_history (
      wrapped tree signed_text type_names aggregation_names tree-IsModelJson
        (codes "0")
        []
        two_files_json)
    ≡ ok (
      record { code = codes "0"; msg = []; body = tree.json.array (two_files_json ∷ []) },
      two_files,
    )
history_roundtrip_example =
    history_roundtrip tree signed_text type_names aggregation_names tree-IsModelJson
      (new_response null) (codes "0") [] two_files
