-- ===== src/Http/Query.antt =====
-- Query strings can be read back, and `insert_or_assign` is a map in the order of its keys.
use okx_cpp_api.Prelude.{
  pop_back-append, ℕ, ◌≡◌, refl, ap, ◌∙◌, ◌≢◌, ◌⊎◌, inl, inr, false, Option, none, some, List, [],
  ◌∷◌, ◌++◌, map, append_assoc, arith, ◌==◌, if◌then◌else◌, is_empty, All, All-append, Bytes,
  bytes_eq, bytes_eq_iff,
}
use okx_cpp_api.Http.{Parameters, append_parameters, create_query_str, insert_or_assign}

-- No byte of the text is `c`.
abbrev pub IsFree : ℕ → Bytes → Type 0
IsFree c = All (λ x. x ≢ c)

abbrev push_front : ℕ → List Bytes → List Bytes
push_front x [] = (x ∷ []) ∷ []
push_front x (f ∷ fs) = (x ∷ f) ∷ fs

-- The parts of a text between the separators.
pub split_on : ℕ → Bytes → List Bytes
split_on c [] = [] ∷ []
split_on c (x ∷ xs) = let rest = split_on c xs in if x == c then [] ∷ rest else push_front x rest

-- The parts before and behind the first separator.
pub split_first : ℕ → Bytes → Bytes × Bytes
split_first c [] = ([], [])
split_first c (x ∷ xs) =
    let rest = split_first c xs in if x == c then ([], xs) else (x ∷ rest.0, rest.1)

-- A server's reading of a query string.
pub read_query : Bytes → Parameters
read_query s = map (split_first b'=') (split_on b'&' s)

split_on-append : (c : ℕ) (s t : Bytes) → IsFree c s → split_on c (s ++ (c ∷ t)) ≡ s ∷ split_on c t
unfolding split_on
split_on-append c [] t h = ground arith
split_on-append c (x ∷ s) t h = ground (arith, h.0, split_on-append c s t h.1)

split_on_free : (c : ℕ) (s : Bytes) → IsFree c s → split_on c s ≡ s ∷ []
unfolding split_on
split_on_free c [] h = refl
split_on_free c (x ∷ s) h = ground (arith, h.0, split_on_free c s h.1)

split_first-append : (c : ℕ) (s t : Bytes) → IsFree c s → split_first c (s ++ (c ∷ t)) ≡ (s, t)
unfolding split_first
split_first-append c [] t h = ground arith
split_first-append c (x ∷ s) t h = ground (arith, h.0, split_first-append c s t h.1)

abbrev pair_text : Bytes × Bytes → Bytes
pair_text (k, v) = k ++ (b'=' ∷ v)

abbrev query_text : Bytes × Bytes → Parameters → Bytes
query_text p [] = pair_text p
query_text p (q ∷ ps) = pair_text p ++ (b'&' ∷ query_text q ps)

append_parameters_lem :
    (s : Bytes) (p : Bytes × Bytes) (ps : Parameters)
    → append_parameters s (p ∷ ps) ≡ (s ++ query_text p ps) ++ (b'&' ∷ [])
unfolding append_parameters
append_parameters_lem s (k, v) [] = simp append_assoc
append_parameters_lem s (k, v) (q ∷ ps) =
    append_parameters_lem (s ++ (k ++ (b'=' ∷ (v ++ (b'&' ∷ []))))) q ps ∙ simp append_assoc

is_empty-append : (s : Bytes) (c : ℕ) → is_empty (s ++ (c ∷ [])) ≡ false
is_empty-append [] c = refl
is_empty-append (x ∷ s) c = refl

create_query_str_cons :
    (p : Bytes × Bytes) (ps : Parameters) → create_query_str (p ∷ ps) ≡ query_text p ps
unfolding create_query_str
create_query_str_cons p ps = rw (
  append_parameters_lem [] p ps,
  is_empty-append (query_text p ps) b'&',
  pop_back-append (query_text p ps) b'&',
)

-- Keys without `&` and `=`, values without `&`.
abbrev pub IsPlain : Bytes × Bytes → Type 0
IsPlain (k, v) = IsFree b'=' k × IsFree b'&' k × IsFree b'&' v

pair_text-IsFree : (p : Bytes × Bytes) → IsPlain p → IsFree b'&' (pair_text p)
pair_text-IsFree (k, v) (_, key, value) =
    All-append (λ x. x ≢ b'&') k (b'=' ∷ v) key ((λ e. absurd (omega arith)), value)

read_query-query_text :
    (p : Bytes × Bytes) (ps : Parameters)
    → IsPlain p
    → All IsPlain ps
    → read_query (query_text p ps) ≡ p ∷ ps
unfolding read_query
read_query-query_text (k, v) [] h hs = rw (
  split_on_free b'&' (pair_text (k, v)) (pair_text-IsFree (k, v) h),
  split_first-append b'=' k v h.0,
)
read_query-query_text (k, v) (q ∷ ps) h (hq, hs) =
    rw
      (
        split_on-append b'&' (pair_text (k, v)) (query_text q ps) (pair_text-IsFree (k, v) h),
        split_first-append b'=' k v h.0,
      )
      (ap (◌∷◌ (k, v)) (read_query-query_text q ps hq hs))

query_text_nonempty : (p : Bytes × Bytes) (ps : Parameters) → query_text p ps ≢ []
query_text_nonempty ([], v) [] h = cc
query_text_nonempty ([], v) (q ∷ ps) h = cc
query_text_nonempty (x ∷ k, v) [] h = cc
query_text_nonempty (x ∷ k, v) (q ∷ ps) h = cc

-- Where no key has `&` or `=` in it and no value has `&`, a server that splits the query string at
-- `&` and each part at its first `=` reads just the parameters, in their order; the query string is
-- empty only if there is no parameter.
pub read_query-create_query_str :
    (ps : Parameters)
    → All IsPlain ps
    → ((ps ≡ []) × (create_query_str ps ≡ []))
      ⊎ ((create_query_str ps ≢ []) × (read_query (create_query_str ps) ≡ ps))
unfolding create_query_str append_parameters
read_query-create_query_str [] h = inl (refl, refl)
read_query-create_query_str (p ∷ ps) (h, hs) = inr (
  rw (create_query_str_cons p ps) (query_text_nonempty p ps),
  rw (create_query_str_cons p ps) (read_query-query_text p ps h hs),
)

-- The value of a key.
unfoldable pub parameter : Bytes → Parameters → Option Bytes
parameter k [] = none
parameter k ((j, v) ∷ m) = if bytes_eq j k then some v else parameter k m

-- After `insert_or_assign` the key has the new value, and every other key the value that it had.
pub parameter-insert_or_assign :
    (k j v : Bytes) (m : Parameters)
    → parameter j (insert_or_assign k v m) ≡ (if bytes_eq k j then some v else parameter j m)
unfolding parameter insert_or_assign
parameter-insert_or_assign k j v [] = refl
parameter-insert_or_assign k j v ((i, w) ∷ m) = ground (
  arith,
  bytes_eq_iff k j,
  bytes_eq_iff i k,
  bytes_eq_iff k i,
  bytes_eq_iff i j,
  parameter-insert_or_assign k j v m,
)
