-- ===== src/Zip/Examples.antt =====
-- An archive that minizip reads, and one without an entry.
use okx_cpp_api.Prelude.{
  ℕ, zero, suc, ◌≡◌, refl, ◌↔◌, true, not, some, [], ◌∷◌, length, is_empty, Bytes, codes,
}
use okx_cpp_api.Prelude.Int.{ℤ, pos, negsuc}
use okx_cpp_api.Result.{ok}
use okx_cpp_api.Zip.{Minizip, to_int32, extract_zip}
use okx_cpp_api.Zip.Handles.{replay, nothing_held, entry_text, extract_zip-replay}

abbrev size_of : ℤ → ℕ
size_of (pos n) = n
size_of (negsuc n) = 0

abbrev take_bytes : ℕ → Bytes → Bytes
take_bytes zero text = []
take_bytes (suc n) [] = []
take_bytes (suc n) (c ∷ text) = c ∷ take_bytes n text

-- An archive whose entry is stored as it is; an empty one has no entry.
abbrev stored : Bytes → Minizip
stored zip_data = record {
  stream_created = true;
  reader_created = true;
  reader_opened = true;
  first_found = not (is_empty zip_data);
  entry_info = some (length zip_data);
  entry_opened = true;
  entry_read = λ size. some (take_bytes (size_of size) zip_data);
}

extract_zip-replay_example :
    let run = extract_zip stored (codes "ab,cd") in
    (replay nothing_held run.0 ≡ some nothing_held)
    × ((text : Bytes) → (run.1 ≡ ok text) ↔ (entry_text (stored (codes "ab,cd")) ≡ some text))
extract_zip-replay_example = extract_zip-replay stored (codes "ab,cd")

read_text : (extract_zip stored (codes "ab,cd")).1 ≡ ok (codes "ab,cd")
unfolding extract_zip to_int32
read_text = refl
