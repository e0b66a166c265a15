-- ===== src/Models/Archive.antt =====
-- src/okx_models.cpp: the list of files with historical data, read from JSON and written to it.
pub mod Roundtrip
mod Examples
use okx_cpp_api.Prelude.{not, ◌&&◌, none, some, List, [], ◌∷◌, map, if◌then◌else◌, Bytes, codes}
use okx_cpp_api.Prelude.Int.{ℤ, zero_ℤ}
use okx_cpp_api.Result.{Result, ok, ◌>>=◌}
use okx_cpp_api.Enums.{InstrumentType, DateAggrType, EnumText}
use okx_cpp_api.Models.Base.{ModelJson, Response, response_from_json, push_items}

pub record MarketDataFileInfo : Type 0 where
  pub filename : Bytes
  pub date_ts : ℤ
  pub size_mb : Bytes
  pub url : Bytes

abbrev pub new_file_info : MarketDataFileInfo
new_file_info = record { filename = []; date_ts = zero_ℤ; size_mb = []; url = [] }

pub record MarketDataGroupDetail : Type 0 where
  pub inst_id : Bytes
  pub inst_family : Bytes
  pub inst_type : InstrumentType
  pub date_range_start : ℤ
  pub date_range_end : ℤ
  pub group_size_mb : Bytes
  pub group_details : List MarketDataFileInfo

abbrev pub new_group_detail : MarketDataGroupDetail
new_group_detail = record {
  inst_id = [];
  inst_family = [];
  inst_type = InstrumentType.swap;
  date_range_start = zero_ℤ;
  date_range_end = zero_ℤ;
  group_size_mb = [];
  group_details = [];
}

-- `MarketDataHistory`, without the fields of its base.
pub record MarketDataHistory : Type 0 where
  pub ts : ℤ
  pub total_size_mb : Bytes
  pub date_aggr_type : DateAggrType
  pub details : List MarketDataGroupDetail

abbrev pub new_history : MarketDataHistory
new_history = record {
  ts = zero_ℤ;
  total_size_mb = [];
  date_aggr_type = DateAggrType.daily;
  details = [];
}

module _ {J D : Type 0} (lib : ModelJson J D) where
  open lib use {
    json, find, at, items, empty, is_array, read_int64, read_instrument_type, read_date_aggr_type,
  }
  open json use {text, array, object, read_text}

  -- `json.contains(key) && json[key].is_array()`, and the items of that array; none otherwise.
  array_items : J → Bytes → List J
  array_items j key = elim (find j key) [ none ↦ [] | some v ↦ if is_array v then items v else [] ]

  -- `MarketDataFileInfo::fromJson`.
  pub file_info_from_json : MarketDataFileInfo → J → Result MarketDataFileInfo
  file_info_from_json r j = do
    filename ← read_text j (codes "filename") r.filename
    date_ts ← read_int64 j (codes "dateTs")
    size_mb ← read_text j (codes "sizeMB") r.size_mb
    url ← read_text j (codes "url") r.url
    ok (record { filename = filename; date_ts = date_ts; size_mb = size_mb; url = url })

  -- `MarketDataGroupDetail::fromJson`.
  pub group_detail_from_json : MarketDataGroupDetail → J → Result MarketDataGroupDetail
  unfolding array_items file_info_from_json
  group_detail_from_json r j = do
    inst_id ← read_text j (codes "instId") r.inst_id
    inst_family ← read_text j (codes "instFamily") r.inst_family
    inst_type ← read_instrument_type j (codes "instType") r.inst_type
    date_range_start ← read_int64 j (codes "dateRangeStart")
    date_range_end ← read_int64 j (codes "dateRangeEnd")
    group_size_mb ← read_text j (codes "groupSizeMB") r.group_size_mb
    group_details ←
        push_items lib (file_info_from_json new_file_info) r.group_details
          (array_items j (codes "groupDetails"))
    ok (record {
      inst_id = inst_id;
      inst_family = inst_family;
      inst_type = inst_type;
      date_range_start = date_range_start;
      date_range_end = date_range_end;
      group_size_mb = group_size_mb;
      group_details = group_details;
    })

  -- What `MarketDataHistory::fromJson` reads of the first element of `data`.
  history_fields : MarketDataHistory → J → Result MarketDataHistory
  unfolding array_items group_detail_from_json
  history_fields r j = do
    ts ← read_int64 j (codes "ts")
    total_size_mb ← read_text j (codes "totalSizeMB") r.total_size_mb
    date_aggr_type ← read_date_aggr_type j (codes "dateAggrType") r.date_aggr_type
    details ←
        push_items lib (group_detail_from_json new_group_detail) r.details
          (array_items j (codes "details"))
    ok (record {
      ts = ts;
      total_size_mb = total_size_mb;
      date_aggr_type = date_aggr_type;
      details = details;
    })

  -- `MarketDataHistory::fromJson`, on its base and its own fields.
  pub history_from_json :
      Response J → MarketDataHistory → J → Result (Response J × MarketDataHistory)
  unfolding history_fields
  history_from_json base r j = do
    response ← response_from_json lib base j
    r' ←
        if not (empty response.body) && is_array response.body
        then at response.body 0 >>= history_fields r
        else ok r
    ok (response, r')

  -- `std::to_string` and the names of the enumerations are the libraries'.
  module _ (to_string : ℤ → Bytes) (types : EnumText InstrumentType)
      (aggregations : EnumText DateAggrType) where
    -- `MarketDataFileInfo::toJson`.
    pub file_info_to_json : MarketDataFileInfo → J
    file_info_to_json r = object (
        (codes "filename", text r.filename)
        ∷ (codes "dateTs", text (to_string r.date_ts))
        ∷ (codes "sizeMB", text r.size_mb)
        ∷ (codes "url", text r.url)
        ∷ [])

    -- `MarketDataGroupDetail::toJson`.
    pub group_detail_to_json : MarketDataGroupDetail → J
    unfolding file_info_to_json
    group_detail_to_json r = object (
        (codes "instId", text r.inst_id)
        ∷ (codes "instFamily", text r.inst_family)
        ∷ (codes "instType", text (types.enum_name r.inst_type))
        ∷ (codes "dateRangeStart", text (to_string r.date_range_start))
        ∷ (codes "dateRangeEnd", text (to_string r.date_range_end))
        ∷ (codes "groupSizeMB", text r.group_size_mb)
        ∷ (codes "groupDetails", array (map file_info_to_json r.group_details))
        ∷ [])

    -- `MarketDataHistory::toJson`.
    pub history_to_json : MarketDataHistory → J
    unfolding group_detail_to_json
    history_to_json r = object (
        (codes "ts", text (to_string r.ts))
        ∷ (codes "totalSizeMB", text r.total_size_mb)
        ∷ (codes "dateAggrType", text (aggregations.enum_name r.date_aggr_type))
        ∷ (codes "details", array (map group_detail_to_json r.details))
        ∷ [])
