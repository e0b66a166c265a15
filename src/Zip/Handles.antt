-- ===== src/Zip/Handles.antt =====
-- Which handles are held, and that none is lost.
use okx_cpp_api.Prelude.{
  ◌≡◌, ◌↔◌, Bool, true, false, not, ◌&&◌, Option, none, some, List, [], ◌∷◌, arith, if◌then◌else◌,
  Bytes,
}
use okx_cpp_api.Result.{ok}
use okx_cpp_api.Zip.{
  Minizip, Call, create_stream, set_buffer, open_stream, create_reader, open_reader,
  goto_first_entry, get_entry_info, open_entry, read_entry, close_entry, close_reader,
  delete_reader, delete_stream, to_int32, extract_zip,
}

-- The handles that a program holds.
pub record Handles : Type 0 where
  pub stream : Bool
  pub reader : Bool
  pub reader_open : Bool
  pub entry_open : Bool

abbrev pub nothing_held : Handles
nothing_held = record { stream = false; reader = false; reader_open = false; entry_open = false }

abbrev only_if : Bool → Handles → Option Handles
only_if true h = some h
only_if false h = none

-- One call, where it may be made: what is acquired is not held before, what is used or released is
-- held, a stream outlives the reader on it, and a reader is deleted once it and its entry are closed.
pub call_effect : Handles → Call → Option Handles
call_effect h (create_stream made) = only_if (not h.stream) (record h { stream = made })
call_effect h (set_buffer size) = only_if h.stream h
call_effect h open_stream = only_if h.stream h
call_effect h (create_reader made) = only_if (not h.reader) (record h { reader = made })
call_effect h (open_reader done) =
    only_if (h.stream && (h.reader && not h.reader_open)) (record h { reader_open = done })
call_effect h goto_first_entry = only_if h.reader_open h
call_effect h get_entry_info = only_if h.reader_open h
call_effect h (open_entry done) =
    only_if (h.reader_open && not h.entry_open) (record h { entry_open = done })
call_effect h (read_entry size) = only_if h.entry_open h
call_effect h close_entry = only_if h.entry_open (record h { entry_open = false })
call_effect h close_reader =
    only_if (h.reader_open && not h.entry_open) (record h { reader_open = false })
call_effect h delete_reader = only_if (h.reader && not h.reader_open) (record h { reader = false })
call_effect h delete_stream = only_if (h.stream && not h.reader) (record h { stream = false })

pub replay : Handles → List Call → Option Handles
unfolding call_effect
replay h [] = some h
replay h (c ∷ cs) = elim (call_effect h c) [ none ↦ none | some h' ↦ replay h' cs ]

-- The text of the first entry, if minizip gives all that leads to it.
abbrev pub entry_text : Minizip → Option Bytes
entry_text mz =
    if mz.stream_created
      && (mz.reader_created && (mz.reader_opened && (mz.first_found && mz.entry_opened)))
    then elim mz.entry_info [ none ↦ none | some size ↦ mz.entry_read (to_int32 size) ]
    else none

-- Whatever fails, and when nothing does, the calls of `extractZip` are in order, with no handle used or
-- released that is not held, and at the end no handle is held. It gives the text of the first entry if
-- each call of minizip gives what it should, and throws otherwise.
pub extract_zip-replay :
    (minizip : Bytes → Minizip) (zip_data : Bytes)
    → let run = extract_zip minizip zip_data in
      (replay nothing_held run.0 ≡ some nothing_held)
      × ((text : Bytes) → (run.1 ≡ ok text) ↔ (entry_text (minizip zip_data) ≡ some text))
unfolding extract_zip replay
extract_zip-replay minizip zip_data = (ground arith, λ text. ground arith)
