-- ===== src/Json.antt =====
-- nlohmann::json and the readers of stonky-cpp-common (a submodule whose files are not in the
-- repository), as far as the messages of the web sockets use them.
pub mod Packed
use okx_cpp_api.Prelude.{◌≡◌, ◌≢◌, Bool, true, ◌&&◌, List, [], ◌∷◌, ltb, Bytes}
use okx_cpp_api.Result.{Result, ok}
use okx_cpp_api.Enums.{EventType}

-- `is_utf8` is what `dump` asks of each text; `object` is a value made by assignments `json["key"] = value`,
-- in their order; `element` is `operator[]` on a constant value, which is an exception on what is no object,
-- and undefined behaviour where the key is missing; `read_text` and `read_event` are
-- `readValue<std::string>` and `readMagicEnum<EventType>`, which take the variable's value and give its value
-- afterwards.
pub record JsonLibrary (J : Type 0) : Type 0 where
  pub parse : Bytes → Result J
  pub dump : J → Bytes
  pub is_utf8 : Bytes → Bool
  pub text : Bytes → J
  pub array : List J → J
  pub object : List (Bytes × J) → J
  pub is_object : J → Bool
  pub contains : J → Bytes → Bool
  pub element : J → Bytes → Result J
  pub read_text : J → Bytes → Bytes → Result Bytes
  pub read_event : J → Bytes → EventType → Result EventType

-- Whether all bytes are those of ASCII.
unfoldable pub is_ascii : Bytes → Bool
is_ascii [] = true
is_ascii (b ∷ s) = ltb b 128 && is_ascii s

-- What is documented of them, of an object that is made by assigning texts to two different keys: it parses
-- to itself from its dump if all these texts are UTF-8, and under each key its text is read. (`dump` of a text
-- that is not UTF-8 throws; `dump` is used below for texts that are.)
pub record IsJson {J : Type 0} (json : JsonLibrary J) : Type 0 where
  pub parse-dump :
      (j k v w : Bytes)
      → json.is_utf8 j ≡ true
      → json.is_utf8 k ≡ true
      → json.is_utf8 v ≡ true
      → json.is_utf8 w ≡ true
      → let o = json.object ((j, json.text v) ∷ (k, json.text w) ∷ []) in
        json.parse (json.dump o) ≡ ok o
  pub read_first :
      (j k v d : Bytes) (x : J)
      → k ≢ j
      → json.read_text (json.object ((j, json.text v) ∷ (k, x) ∷ [])) j d ≡ ok v
  pub read_second :
      (j k v d : Bytes) (x : J)
      → k ≢ j
      → json.read_text (json.object ((j, x) ∷ (k, json.text v) ∷ [])) k d ≡ ok v
  pub ascii-is_utf8 : (s : Bytes) → is_ascii s ≡ true → json.is_utf8 s ≡ true
