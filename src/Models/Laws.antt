-- ===== src/Models/Laws.antt =====
-- What the models rely on of nlohmann::json, magic_enum and the readers of stonky-cpp-common.
use okx_cpp_api.Prelude.{
  ◌≡◌, true, false, Option, none, some, List, [], ◌∷◌, if◌then◌else◌, Bytes, bytes_eq,
}
use okx_cpp_api.Prelude.Int.{ℤ}
use okx_cpp_api.Result.{ok}
use okx_cpp_api.Enums.{InstrumentType, DateAggrType, EnumText}
use okx_cpp_api.Models.Base.{ModelJson}

-- The value under a key after assignments in their order: the last one counts.
abbrev pub assigned : {J : Type 0} → Bytes → List (Bytes × J) → Option J
assigned k [] = none
assigned k ((j, v) ∷ fs) = elim (assigned k fs) [
  | none ↦ if bytes_eq j k then some v else none
  | some w ↦ some w
]

-- Objects and arrays hold what they were made of, and a reader reads the text that is there.
pub record IsModelJson {J D : Type 0} (lib : ModelJson J D) (to_string : ℤ → Bytes)
    (types : EnumText InstrumentType) (aggregations : EnumText DateAggrType) : Type 0 where
  pub find-object :
      (k : Bytes) (fs : List (Bytes × J)) → lib.find (lib.json.object fs) k ≡ assigned k fs
  pub is_object-object : (fs : List (Bytes × J)) → lib.json.is_object (lib.json.object fs) ≡ true
  pub is_array-array : (js : List J) → lib.is_array (lib.json.array js) ≡ true
  pub items-array : (js : List J) → lib.items (lib.json.array js) ≡ js
  pub at-array : (j : J) (js : List J) → lib.at (lib.json.array (j ∷ js)) 0 ≡ ok j
  pub empty-array : (j : J) (js : List J) → lib.empty (lib.json.array (j ∷ js)) ≡ false
  pub read_text_of :
      (j : J) (k s d : Bytes)
      → lib.find j k ≡ some (lib.json.text s)
      → lib.json.read_text j k d ≡ ok s
  pub read_int64_of :
      (j : J) (k : Bytes) (n : ℤ)
      → lib.find j k ≡ some (lib.json.text (to_string n))
      → lib.read_int64 j k ≡ ok n
  pub read_instrument_type_of :
      (j : J) (k : Bytes) (e d : InstrumentType)
      → lib.find j k ≡ some (lib.json.text (types.enum_name e))
      → lib.read_instrument_type j k d ≡ ok e
  pub read_date_aggr_type_of :
      (j : J) (k : Bytes) (e d : DateAggrType)
      → lib.find j k ≡ some (lib.json.text (aggregations.enum_name e))
      → lib.read_date_aggr_type j k d ≡ ok e
