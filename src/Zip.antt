-- ===== src/Zip.antt =====
-- `extractZip` of src/okx_market_data_utils.cpp: the calls of minizip, in their order, and the result.
-- What minizip does is a parameter: how each of its calls ends for the archive at hand.
pub mod Handles
mod Examples
use okx_cpp_api.Prelude.{
  ◌^◌, ◌%◌, ℕ, ◌+◌, ◌-◌, Bool, true, false, not, Option, none, some, List, [], ◌∷◌, ◌++◌, ltb,
  if◌then◌else◌, length, Bytes, codes,
}
use okx_cpp_api.Prelude.Int.{ℤ, pos, negsuc}
use Prim.Native.String.{String}
use okx_cpp_api.Result.{Result, ok, err, runtime_error}

-- `stream_created` and `reader_created` say that the pointer is not null, `reader_opened` and the like
-- that the call gives `MZ_OK`; `entry_info` is the uncompressed size of the first entry, if the call
-- gives it; `entry_read n` is what is read into a buffer for `n` bytes, or none for a negative result.
pub record Minizip : Type 0 where
  pub stream_created : Bool
  pub reader_created : Bool
  pub reader_opened : Bool
  pub first_found : Bool
  pub entry_info : Option ℕ
  pub entry_opened : Bool
  pub entry_read : ℤ → Option Bytes

-- The calls that acquire, use and release the handles; those that acquire say whether they did.
pub data Call : Type 0 where
  create_stream : Bool → Call
  set_buffer : ℤ → Call
  open_stream : Call
  create_reader : Bool → Call
  open_reader : Bool → Call
  goto_first_entry : Call
  get_entry_info : Call
  open_entry : Bool → Call
  read_entry : ℤ → Call
  close_entry close_reader delete_reader delete_stream : Call

-- `static_cast<int32_t>(size)`.
unfoldable pub to_int32 : ℕ → ℤ
to_int32 size =
    let low = size % 2 ^ 32 in if ltb low (2 ^ 31) then pos low else negsuc (2 ^ 32 - 1 - low)

abbrev fail : List Call → String → List Call × Result Bytes
fail calls message = (calls, err (runtime_error (codes message)))

-- The calls that release a reader that is open, and the stream.
abbrev release_reader : List Call
release_reader = close_reader ∷ delete_reader ∷ delete_stream ∷ []

-- From the read on, for an entry of `size` bytes.
unfoldable pub extract_entry : Minizip → ℕ → List Call × Result Bytes
extract_entry mz size = elim (mz.entry_read (to_int32 size)) [
  | none ↦
      fail (read_entry (to_int32 size) ∷ close_entry ∷ release_reader)
        "Failed to extract file from ZIP"
  | some result ↦ (read_entry (to_int32 size) ∷ close_entry ∷ release_reader, ok result)
]

abbrev after : List Call → List Call × Result Bytes → List Call × Result Bytes
after calls (later, result) = (calls ++ later, result)

-- From `mz_zip_reader_entry_open` on.
unfoldable pub open_and_extract : Minizip → ℕ → List Call × Result Bytes
unfolding extract_entry
open_and_extract mz size =
    if not mz.entry_opened
    then fail (open_entry false ∷ release_reader) "Failed to open ZIP entry"
    else after (open_entry true ∷ []) (extract_entry mz size)

-- From `mz_zip_reader_goto_first_entry` on.
unfoldable pub extract_first : Minizip → List Call × Result Bytes
unfolding open_and_extract
extract_first mz =
    if not mz.first_found
    then fail (goto_first_entry ∷ release_reader) "ZIP archive is empty"
    else elim mz.entry_info [
      | none ↦
          fail (goto_first_entry ∷ get_entry_info ∷ release_reader)
            "Failed to get file info from ZIP"
      | some size ↦ after (goto_first_entry ∷ get_entry_info ∷ []) (open_and_extract mz size)
    ]

-- From `mz_zip_reader_create` on.
unfoldable pub extract_with_stream : Minizip → List Call × Result Bytes
unfolding extract_first
extract_with_stream mz =
    if not mz.reader_created
    then fail (create_reader false ∷ delete_stream ∷ []) "Failed to create ZIP reader"
    else if not mz.reader_opened
    then fail (create_reader true ∷ open_reader false ∷ delete_reader ∷ delete_stream ∷ [])
        "Failed to open ZIP archive"
    else after (create_reader true ∷ open_reader true ∷ []) (extract_first mz)

-- `extractZip`, on what minizip does with `zip_data`.
unfoldable pub extract_zip : (Bytes → Minizip) → Bytes → List Call × Result Bytes
unfolding extract_with_stream to_int32
extract_zip minizip zip_data =
    let mz = minizip zip_data in
    if not mz.stream_created
    then fail (create_stream false ∷ []) "Failed to create memory stream"
    else after (create_stream true ∷ set_buffer (to_int32 (length zip_data)) ∷ open_stream ∷ [])
        (extract_with_stream mz)
