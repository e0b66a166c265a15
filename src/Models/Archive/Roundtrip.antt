-- ===== src/Models/Archive/Roundtrip.antt =====
-- What is written reads back.
use okx_cpp_api.Prelude.{◌≡◌, refl, ◌∙◌, some, List, [], ◌∷◌, map, back, Bytes, codes}
use okx_cpp_api.Prelude.Int.{ℤ}
use okx_cpp_api.Result.{Result, ok}
use okx_cpp_api.Enums.{InstrumentType, DateAggrType, EnumText}
use okx_cpp_api.Models.Base.{ModelJson, Response, response_from_json, push_items}
use okx_cpp_api.Models.Base.Listings.{ReadAs-push_items, ReadAs-map}
use okx_cpp_api.Models.Laws.{assigned, IsModelJson}
use okx_cpp_api.Models.Archive.{
  MarketDataFileInfo, MarketDataGroupDetail, MarketDataHistory, new_file_info, new_group_detail,
  new_history, array_items, file_info_from_json, group_detail_from_json, history_fields,
  history_from_json, file_info_to_json, group_detail_to_json, history_to_json,
}

module _ {J D : Type 0} (lib : ModelJson J D) (to_string : ℤ → Bytes)
    (types : EnumText InstrumentType) (aggregations : EnumText DateAggrType)
    (laws : IsModelJson lib to_string types aggregations) where
  open lib use {json}
  open json use {text, array, object, read_text}

  read_text-object :
      (fs : List (Bytes × J)) (k s d : Bytes)
      → assigned k fs ≡ some (text s)
      → read_text (object fs) k d ≡ ok s
  read_text-object fs k s d e = laws.read_text_of (object fs) k s d (laws.find-object k fs ∙ e)

  read_int64-object :
      (fs : List (Bytes × J)) (k : Bytes) (n : ℤ)
      → assigned k fs ≡ some (text (to_string n))
      → lib.read_int64 (object fs) k ≡ ok n
  read_int64-object fs k n e = laws.read_int64_of (object fs) k n (laws.find-object k fs ∙ e)

  array_items-object :
      (fs : List (Bytes × J)) (k : Bytes) (js : List J)
      → assigned k fs ≡ some (array js)
      → array_items lib (object fs) k ≡ js
  unfolding array_items
  array_items-object fs k js e =
      rw (laws.find-object k fs ∙ e, laws.is_array-array js, array_items) (laws.items-array js)

  push_items-map :
      {A : Type 0} (read : J → Result A) (write : A → J)
      → ((a : A) → read (write a) ≡ ok a)
      → (xs : List A) → push_items lib read [] (map write xs) ≡ ok xs
  push_items-map read write back xs =
      ReadAs-push_items lib read (map write xs) xs [] (ReadAs-map lib read write back xs)

  file_info_back :
      (old r : MarketDataFileInfo)
      → file_info_from_json lib old (file_info_to_json lib to_string types aggregations r) ≡ ok r
  unfolding file_info_from_json file_info_to_json
  file_info_back old r =
      let fs : List (Bytes × J) =
        (codes "filename", text r.filename)
        ∷ (codes "dateTs", text (to_string r.date_ts))
        ∷ (codes "sizeMB", text r.size_mb)
        ∷ (codes "url", text r.url)
        ∷ [] in
      rw (
        read_text-object fs (codes "filename") r.filename old.filename refl,
        read_int64-object fs (codes "dateTs") r.date_ts refl,
        read_text-object fs (codes "sizeMB") r.size_mb old.size_mb refl,
        read_text-object fs (codes "url") r.url old.url refl,
      )

  group_detail_back :
      (r : MarketDataGroupDetail)
      → group_detail_from_json lib new_group_detail
          (group_detail_to_json lib to_string types aggregations r)
        ≡ ok r
  unfolding group_detail_from_json group_detail_to_json
  group_detail_back r =
      let files = map (file_info_to_json lib to_string types aggregations) r.group_details in
      let fs : List (Bytes × J) =
        (codes "instId", text r.inst_id)
        ∷ (codes "instFamily", text r.inst_family)
        ∷ (codes "instType", text (types.enum_name r.inst_type))
        ∷ (codes "dateRangeStart", text (to_string r.date_range_start))
        ∷ (codes "dateRangeEnd", text (to_string r.date_range_end))
        ∷ (codes "groupSizeMB", text r.group_size_mb)
        ∷ (codes "groupDetails", array files)
        ∷ [] in
      rw (
        read_text-object fs (codes "instId") r.inst_id [] refl,
        read_text-object fs (codes "instFamily") r.inst_family [] refl,
        laws.read_instrument_type_of (object fs) (codes "instType") r.inst_type InstrumentType.swap
            (laws.find-object (codes "instType") fs),
        read_int64-object fs (codes "dateRangeStart") r.date_range_start refl,
        read_int64-object fs (codes "dateRangeEnd") r.date_range_end refl,
        read_text-object fs (codes "groupSizeMB") r.group_size_mb [] refl,
        array_items-object fs (codes "groupDetails") files refl,
        push_items-map (file_info_from_json lib new_file_info)
            (file_info_to_json lib to_string types aggregations) (file_info_back new_file_info)
            r.group_details,
      )

  history_fields_back :
      (r : MarketDataHistory)
      → history_fields lib new_history (history_to_json lib to_string types aggregations r) ≡ ok r
  unfolding history_fields history_to_json
  history_fields_back r =
      let groups = map (group_detail_to_json lib to_string types aggregations) r.details in
      let fs : List (Bytes × J) =
        (codes "ts", text (to_string r.ts))
        ∷ (codes "totalSizeMB", text r.total_size_mb)
        ∷ (codes "dateAggrType", text (aggregations.enum_name r.date_aggr_type))
        ∷ (codes "details", array groups)
        ∷ [] in
      rw (
        read_int64-object fs (codes "ts") r.ts refl,
        read_text-object fs (codes "totalSizeMB") r.total_size_mb [] refl,
        laws.read_date_aggr_type_of (object fs) (codes "dateAggrType") r.date_aggr_type
            DateAggrType.daily (laws.find-object (codes "dateAggrType") fs),
        array_items-object fs (codes "details") groups refl,
        push_items-map (group_detail_from_json lib new_group_detail)
            (group_detail_to_json lib to_string types aggregations) group_detail_back r.details,
      )

  -- The response that the exchange wraps a list of files in.
  abbrev pub wrapped : Bytes → Bytes → J → J
  wrapped code msg j =
      object
        ((codes "code", text code) ∷ (codes "msg", text msg) ∷ (codes "data", array (j ∷ [])) ∷ [])

  response_back :
      (code msg : Bytes) (j : J) (old : Response J)
      → response_from_json lib old (wrapped code msg j)
        ≡ ok (record { code = code; msg = msg; body = array (j ∷ []) })
  unfolding response_from_json
  response_back code msg j old =
      let fs : List (Bytes × J) =
        (codes "code", text code) ∷ (codes "msg", text msg) ∷ (codes "data", array (j ∷ [])) ∷ [] in
      rw (
        read_text-object fs (codes "code") code old.code refl,
        read_text-object fs (codes "msg") msg old.msg refl,
        laws.is_object-object fs,
        laws.find-object (codes "data") fs,
      )

  -- A list of files that is written to JSON and wrapped in a response, whatever its code and its
  -- message, reads back as that list, with every group and every file in its place, and with that
  -- code and that message.
  pub history_roundtrip :
      (old : Response J) (code msg : Bytes) (r : MarketDataHistory)
      → let j = history_to_json lib to_string types aggregations r in
        history_from_json lib old new_history (wrapped code msg j)
        ≡ ok (record { code = code; msg = msg; body = array (j ∷ []) }, r)
  unfolding history_from_json
  history_roundtrip old code msg r =
      let j = history_to_json lib to_string types aggregations r in
      rw (
        response_back code msg j old,
        laws.empty-array j [],
        laws.is_array-array (j ∷ []),
        laws.at-array j [],
        history_fields_back r,
      )
