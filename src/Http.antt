-- ===== src/Http.antt =====
-- src/okx_http_session.cpp: query strings, request targets, the signed headers of private calls,
-- and the address that `downloadBinary` takes out of a URL. Sockets, TLS and Beast's serializer
-- are not modelled: `exchange` stands for one request and its response over the network, HMAC with
-- base64, the clock's text and `dump` of JSON for what OpenSSL, date and nlohmann::json compute.
pub mod Transport
pub mod Query
pub mod Signing
pub mod Url
mod Examples
use okx_cpp_api.Prelude.{
  ℕ, ◌+◌, ◌-◌, Bool, true, false, ◌&&◌, ◌||◌, Option, none, some, List, [], ◌∷◌, ◌++◌, ltb, ◌==◌,
  if◌then◌else◌, pop_back, is_empty, Bytes, codes, bytes_eq,
}
use okx_cpp_api.Result.{Result, ok, err, runtime_error, download_failed}

-- `<` of `std::string`: byte by byte.
unfoldable pub bytes_lt : Bytes → Bytes → Bool
bytes_lt xs [] = false
bytes_lt [] (y ∷ ys) = true
bytes_lt (x ∷ xs) (y ∷ ys) = ltb x y || ((x == y) && bytes_lt xs ys)

-- `std::map<std::string, std::string>`, in the order of its keys.
abbrev pub Parameters : Type 0
Parameters = List (Bytes × Bytes)

-- `insert_or_assign`.
unfoldable pub insert_or_assign : Bytes → Bytes → Parameters → Parameters
unfolding bytes_lt
insert_or_assign k v [] = (k, v) ∷ []
insert_or_assign k v ((j, w) ∷ m) =
    if bytes_eq k j
    then (k, v) ∷ m
    else if bytes_lt k j
    then (k, v) ∷ (j, w) ∷ m
    else (j, w) ∷ insert_or_assign k v m

-- The loop of `createQueryStr`.
unfoldable pub append_parameters : Bytes → Parameters → Bytes
append_parameters query_str [] = query_str
append_parameters query_str ((fst, snd) ∷ ps) =
    append_parameters (query_str ++ (fst ++ (codes "=" ++ (snd ++ codes "&")))) ps

-- `HTTPSession::P::createQueryStr`.
unfoldable pub create_query_str : Parameters → Bytes
unfolding append_parameters
create_query_str parameters =
    let query_str = append_parameters [] parameters in
    if is_empty query_str then query_str else pop_back query_str

pub data Verb : Type 0 where
  get post : Verb

-- What the program sets of a `http::request`: `headers` holds the fields in the order in which they
-- are set, `prepared` says that `prepare_payload` was called.
pub record Request : Type 0 where
  pub verb : Verb
  pub target : Bytes
  pub headers : List (Bytes × Bytes)
  pub body : Bytes
  pub prepared : Bool

pub record Response : Type 0 where
  pub result_int : ℕ
  pub body : Bytes

-- What OpenSSL, base64 and date give: `sign secret message` is the base64 text of the HMAC-SHA256.
pub record Signer : Type 0 where
  pub sign : Bytes → Bytes → Bytes

pub record HttpSession : Type 0 where
  pub api_key : Bytes
  pub api_secret : Bytes
  pub passphrase : Bytes
  pub uri : Bytes

-- `HTTPSession::HTTPSession`, with `API_MAINNET_URI`.
pub new_http_session : Bytes → Bytes → Bytes → HttpSession
new_http_session api_key api_secret passphrase = record {
  api_key = api_key;
  api_secret = api_secret;
  passphrase = passphrase;
  uri = codes "www.okx.com";
}

-- `http::request{verb, target, 11}`.
abbrev new_request : Verb → Bytes → Request
new_request verb target = record {
  verb = verb;
  target = target;
  headers = [];
  body = [];
  prepared = false;
}

-- `req.set(name, value)`.
abbrev set_field : Bytes → Bytes → Request → Request
set_field name value req = record req { headers = req.headers ++ ((name, value) ∷ []) }

abbrev set_access : HttpSession → Bytes → Bytes → Request → Request
set_access session signature ts req = set_field (codes "OK-ACCESS-PASSPHRASE") session.passphrase (
    set_field (codes "OK-ACCESS-TIMESTAMP") ts (
      set_field (codes "OK-ACCESS-SIGN") signature
        (set_field (codes "OK-ACCESS-KEY") session.api_key req)))

module _ (signer : Signer) (session : HttpSession) (ts : Bytes) where
  open signer use {sign}

  -- `HTTPSession::P::authenticatePost`; `body_string` is `json.dump()`, `ts` the time with its Z.
  authenticate_post : Request → Bytes → Request
  authenticate_post req body_string =
      let parameter_string = ts ++ (codes "POST" ++ (req.target ++ body_string)) in
      let signature = sign session.api_secret parameter_string in
      set_field (codes "Content-Type") (codes "application/json")
        (set_access session signature ts (record req { body = body_string; prepared = true }))

  -- `HTTPSession::P::authenticateGet`.
  authenticate_get : Request → Request
  authenticate_get req =
      let parameter_string = ts ++ (codes "GET" ++ req.target) in
      let signature = sign session.api_secret parameter_string in
      set_access session signature ts req

  -- The request that `HTTPSession::get` makes.
  unfoldable pub get_request : Bytes → Parameters → Bool → Request
  unfolding authenticate_get
  get_request path parameters is_public =
      let query_string = create_query_str parameters in
      let final_path =
        if is_empty query_string then path else path ++ (codes "?" ++ query_string) in
      let req = new_request get final_path in if is_public then req else authenticate_get req

  -- The request that `HTTPSession::post` makes.
  unfoldable pub post_request : Bytes → Bytes → Bool → Request
  unfolding authenticate_post
  post_request path json is_public =
      let req = new_request post path in if is_public then req else authenticate_post req json

-- Beast, Asio and OpenSSL: a request written to a host and its response, or an exception.
abbrev pub Network : Type 0
Network = Bytes → Request → Result Response

module _ (network : Network) (version : Bytes) (signer : Signer) (session : HttpSession) where
  -- `HTTPSession::P::request`; `version` is Beast's version text.
  unfoldable pub request : Request → Result Response
  request req =
      network session.uri
        (set_field (codes "User-Agent") version (set_field (codes "Host") session.uri req))

  -- `HTTPSession::get`, at the time `ts`.
  unfoldable pub http_get : Bytes → Bytes → Parameters → Bool → Result Response
  unfolding request
  http_get ts path parameters is_public =
      request (get_request signer session ts path parameters is_public)

  -- `HTTPSession::post`, at the time `ts`, of a JSON value that dumps to `json`.
  unfoldable pub http_post : Bytes → Bytes → Bytes → Bool → Result Response
  unfolding request
  http_post ts path json is_public = request (post_request signer session ts path json is_public)

-- `url.find('/')`, with what stands before the first slash and from it on; `none` is `npos`.
unfoldable pub find_slash : Bytes → Option (Bytes × Bytes)
find_slash [] = none
find_slash (c ∷ cs) =
    let rest = find_slash cs in
    if c == b'/'
    then some ([], c ∷ cs)
    else elim rest [ none ↦ none | some (before, from) ↦ some (c ∷ before, from) ]

-- `s.substr(prefix.size())`, if `s` starts with the prefix.
unfoldable pub strip_prefix : Bytes → Bytes → Option Bytes
strip_prefix [] s = some s
strip_prefix (p ∷ ps) [] = none
strip_prefix (p ∷ ps) (c ∷ cs) = if c == p then strip_prefix ps cs else none

abbrev pub https_prefix : Bytes
https_prefix = codes "https://"

-- The head of `HTTPSession::downloadBinary`: the host and the path of a URL.
unfoldable pub split_url : Bytes → Result (Bytes × Bytes)
unfolding find_slash strip_prefix
split_url url = elim (strip_prefix https_prefix url) [
  | none ↦ err (runtime_error (codes "URL must start with https://"))
  | some rest ↦ elim (find_slash rest) [
    | none ↦ ok (rest, codes "/")
    | some (host, path) ↦ ok (host, path)
  ]
]

-- `HTTPSession::downloadBinary`.
unfoldable pub download_binary : Network → Bytes → Bytes → Result Bytes
unfolding split_url
download_binary network version url = elim (split_url url) [
  | err e ↦ err e
  | ok (host, path) ↦
      let req =
        set_field (codes "User-Agent") version
          (set_field (codes "Host") host (new_request get path)) in
      elim (network host req) [
        | err e ↦ err e
        | ok response ↦
            if response.result_int == 200
            then ok response.body
            else err (download_failed response.result_int)
      ]
]
