-- ===== src/Json/Packed.antt =====
-- A small library that meets the laws, for examples: a value is its own text, and an object is the
-- list of its keys and values, each behind its length.
use okx_cpp_api.Prelude.{
  drop, take, ◌≡◌, refl, ap, ◌≢◌, true, false, not, Option, none, some, List, [], ◌∷◌, ◌++◌, map,
  arith, if◌then◌else◌, length, is_empty, Bytes, codes, bytes_eq, bytes_eq_iff,
}
use okx_cpp_api.Result.{Result, ok, err, undefined}
use okx_cpp_api.Enums.{EventType}
use okx_cpp_api.Json.{JsonLibrary, IsJson}

abbrev pack : List (Bytes × Bytes) → Bytes
pack [] = []
pack ((k, v) ∷ fs) = length k ∷ (k ++ (length v ∷ (v ++ pack fs)))

-- The first key and value, and the rest.
abbrev unpack : Bytes → Option (Bytes × Bytes × Bytes)
unpack [] = none
unpack (n ∷ r) = elim (drop n r) [ [] ↦ none | m ∷ r' ↦ some (take n r, take m r', drop m r') ]

abbrev find_packed : Bytes → Bytes → Option Bytes
find_packed b k = elim (unpack b) [
  | none ↦ none
  | some (j, v, rest) ↦ if bytes_eq j k then some v else elim (unpack rest) [
    | none ↦ none
    | some (i, w, _) ↦ if bytes_eq i k then some w else none
  ]
]

abbrev or_default : Option Bytes → Bytes → Bytes
or_default none d = d
or_default (some v) d = v

abbrev read_packed : Bytes → Bytes → Bytes → Bytes
read_packed b k d = or_default (find_packed b k) d

-- A missing key is undefined behaviour.
abbrev present : Option Bytes → Result Bytes
present none = err undefined
present (some v) = ok v

abbrev event_of : Bytes → EventType → EventType
event_of s e =
    if bytes_eq s (codes "subscribe")
    then EventType.subscribe
    else if bytes_eq s (codes "unsubscribe")
    then EventType.unsubscribe
    else if bytes_eq s (codes "error")
    then EventType.error
    else e

abbrev pub packed : JsonLibrary Bytes
packed = record {
  parse = λ s. ok s;
  dump = λ s. s;
  is_utf8 = λ s. true;
  text = λ s. s;
  array = λ vs. pack (map (λ v. ([], v)) vs);
  object = pack;
  is_object = λ _. true;
  contains = λ b k. not (is_empty (read_packed b k []));
  element = λ b k. present (find_packed b k);
  read_text = λ b k d. ok (read_packed b k d);
  read_event = λ b k e. ok (event_of (read_packed b k []) e);
}

take-append : (xs ys : Bytes) → take (length xs) (xs ++ ys) ≡ xs
take-append [] ys = refl
take-append (x ∷ xs) ys = ap (◌∷◌ x) (take-append xs ys)

drop-append : (xs ys : Bytes) → drop (length xs) (xs ++ ys) ≡ ys
drop-append [] ys = refl
drop-append (x ∷ xs) ys = drop-append xs ys

unpack-pack :
    (k v : Bytes) (fs : List (Bytes × Bytes)) → unpack (pack ((k, v) ∷ fs)) ≡ some (k, v, pack fs)
unpack-pack k v fs =
    let r = v ++ pack fs in
    rw (
      drop-append k (length v ∷ r),
      take-append k (length v ∷ r),
      drop-append v (pack fs),
      take-append v (pack fs),
      unpack,
    )

read_packed_first :
    (k v d : Bytes) (fs : List (Bytes × Bytes)) → read_packed (pack ((k, v) ∷ fs)) k d ≡ v
read_packed_first k v d fs = rw (unpack-pack k v fs, (bytes_eq_iff k k).1 refl, find_packed)

read_packed_second :
    (j k v d x : Bytes) (fs : List (Bytes × Bytes))
    → k ≢ j
    → read_packed (pack ((j, x) ∷ (k, v) ∷ fs)) k d ≡ v
read_packed_second j k v d x fs h =
    let differ : bytes_eq j k ≡ false = ground (arith, bytes_eq_iff j k) in
    rw (
      unpack-pack j x ((k, v) ∷ fs),
      differ,
      unpack-pack k v fs,
      (bytes_eq_iff k k).1 refl,
      find_packed,
    )

pub packed-IsJson : IsJson packed
packed-IsJson = record {
  parse-dump = λ j k v w _ _ _ _. refl;
  read_first = λ j k v d x h. ap ok (read_packed_first j v d ((k, x) ∷ []));
  read_second = λ j k v d x h. ap ok (read_packed_second j k v d x [] h);
  ascii-is_utf8 = λ s h. refl;
}
