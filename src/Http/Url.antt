-- ===== src/Http/Url.antt =====
-- The host and the path that a download takes out of its URL.
use okx_cpp_api.Prelude.{
  ℕ, ◌≡◌, refl, ap, ◌≢◌, ◌⊎◌, inl, inr, Option, none, some, [], ◌∷◌, ◌++◌, arith, ◌==◌, ==_iff,
  Bool-cases, Option-cases, Bytes, codes,
}
use okx_cpp_api.Result.{ok, err, Error}
use okx_cpp_api.Http.{runtime_error, split_url, https_prefix, find_slash, strip_prefix}
use okx_cpp_api.Http.Query.{IsFree}

-- What stands behind the protocol, by the host and the path of the request.
abbrev pub IsAddress : Bytes → Bytes → Bytes → Type 0
IsAddress rest host path =
    IsFree b'/' host
    × (((rest ≡ host) × (path ≡ codes "/"))
        ⊎ ((tail : Bytes) × (path ≡ b'/' ∷ tail) × (rest ≡ host ++ path)))

-- What `find_slash` gives for a text.
abbrev Found : Bytes → Option (Bytes × Bytes) → Type 0
Found s none = IsFree b'/' s
Found s (some (before, from)) =
    IsFree b'/' before × (s ≡ before ++ from) × ((tail : Bytes) × (from ≡ b'/' ∷ tail))

Found-cons :
    (c : ℕ) (cs : Bytes)
    → c ≢ b'/'
    → (r : Option (Bytes × Bytes)) → Found cs r
    → Found (c ∷ cs) (elim r [ none ↦ none | some (before, from) ↦ some (c ∷ before, from) ])
Found-cons c cs h none f = (h, f)
Found-cons c cs h (some (before, from)) (free, e, tail) = ((h, free), ap (◌∷◌ c) e, tail)

find_slash-Found : (s : Bytes) → Found s (find_slash s)
unfolding find_slash
find_slash-Found [] = tt
find_slash-Found (c ∷ cs) = elim (Bool-cases (c == b'/')) [
  | inl h ↦ rw h (tt, refl, (cs, ap (λ x. x ∷ cs) ((==_iff c b'/').0 h)))
  | inr h ↦ rw h (Found-cons c cs (ground arith) (find_slash cs) (find_slash-Found cs))
]

strip_prefix-append : (p s : Bytes) → strip_prefix p (p ++ s) ≡ some s
unfolding strip_prefix
strip_prefix-append [] s = refl
strip_prefix-append (c ∷ p) s = ground (arith, strip_prefix-append p s)

strip_prefix-some : (p s rest : Bytes) → strip_prefix p s ≡ some rest → s ≡ p ++ rest
unfolding strip_prefix
strip_prefix-some [] s rest h = ground arith
strip_prefix-some (c ∷ p) [] rest h = cc
strip_prefix-some (c ∷ p) (d ∷ s) rest h = ground (arith, strip_prefix-some p s rest)

accepted :
    (url rest : Bytes) (r : Option (Bytes × Bytes))
    → strip_prefix https_prefix url ≡ some rest
    → find_slash rest ≡ r
    → Found rest r
    → (host : Bytes) × (path : Bytes) × (split_url url ≡ ok (host, path)) × IsAddress rest host path
unfolding split_url
accepted url rest none e f free = (rest, codes "/", rw (e, f, split_url), (free, inl (refl, refl)))
accepted url rest (some (host, path)) e f (free, parts, (tail, slash)) =
    (host, path, rw (e, f, split_url), (free, inr (tail, slash, parts)))

refused :
    (url : Bytes)
    → strip_prefix https_prefix url ≡ none
    → ((rest : Bytes) → url ≢ https_prefix ++ rest) × ((e : Error) × (split_url url ≡ err e))
unfolding split_url
refused url e = (
  λ rest h. cc (ap (strip_prefix https_prefix) h, strip_prefix-append https_prefix rest),
  (runtime_error (codes "URL must start with https://"), rw (e, split_url)),
)

-- A URL is accepted exactly if it starts with https://. Then the host has no slash, and what stands
-- behind the protocol is the host with the path, or the host alone, in which case the path is "/".
pub split_url_iff :
    (url : Bytes)
    → ((rest : Bytes) × (host : Bytes) × (path : Bytes) × (url ≡ https_prefix ++ rest)
        × (split_url url ≡ ok (host, path))
        × IsAddress rest host path)
      ⊎ (((rest : Bytes) → url ≢ https_prefix ++ rest) × ((e : Error) × (split_url url ≡ err e)))
split_url_iff url = elim (Option-cases (strip_prefix https_prefix url)) [
  | inl e ↦ inr (refused url e)
  | inr (rest, e) ↦
      let (host, path, answer, address) =
        accepted url rest (find_slash rest) e refl (find_slash-Found rest) in
      inl (rest, host, path, strip_prefix-some https_prefix url rest e, answer, address)
]
