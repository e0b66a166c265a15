-- ===== src/Rest/Readings/Examples.antt =====
-- A call for a list on small trees.
use okx_cpp_api.Prelude.{
  ℕ, ◌≡◌, refl, ◌↔◌, true, [], ◌∷◌, map, if◌then◌else◌, Bytes, codes, bytes_eq,
}
use okx_cpp_api.Prelude.Int.{ℤ, pos}
use okx_cpp_api.Result.{Result, ok, err, foreign}
use okx_cpp_api.Http
use okx_cpp_api.Http.{Signer, Network, new_http_session, http_get}
use okx_cpp_api.Models.{Candle}
use okx_cpp_api.Models.Base.{ModelJson, Response, listing_from_json}
use okx_cpp_api.Models.Market.{candle_from_json}
use okx_cpp_api.Models.Tree.{Tree, null, tree, array_of, object_of}
use okx_cpp_api.Rest.{get_and_read, check_response, handle_okx_response}
use okx_cpp_api.Rest.Readings.{listing_reading}
use okx_cpp_api.Rest.Readings.Listings.{HoldsList, get_listing_iff}

abbrev text_of : Bytes → Tree
text_of = Tree.text

-- The rows of two candles, the newer one first.
abbrev rows : Tree
rows = array_of (
    map
      (λ (n : ℕ). array_of (
        text_of (0 ∷ n ∷ [])
        ∷ map text_of (
            codes "1"
            ∷ codes "2"
            ∷ codes "3"
            ∷ codes "4"
            ∷ codes "5"
            ∷ codes "6"
            ∷ codes "7"
            ∷ codes "1"
            ∷ [])))
      (8 ∷ 7 ∷ []))

abbrev body : Tree
body =
    object_of
      ((codes "code", text_of (codes "0")) ∷ (codes "msg", text_of []) ∷ (codes "data", rows) ∷ [])

-- Every text parses to that body.
abbrev lib : ModelJson Tree Bytes
lib = record tree { json = record (tree.json) { parse = λ _. ok body } }

abbrev no_signer : Signer
no_signer = record { sign = λ secret message. [] }

abbrev answers : Network
answers host req = ok (record { result_int = 200; body = [] })

abbrev stoi : Bytes → Result ℤ
stoi s = if bytes_eq s (codes "0") then ok (pos 0) else err (foreign s)

abbrev candle : ℕ → Candle Bytes
candle n = record {
  ts = pos n;
  o = codes "1";
  h = codes "2";
  l = codes "3";
  c = codes "4";
  vol = codes "5";
  vol_ccy = codes "6";
  vol_ccy_quote = codes "7";
  confirm = true;
}

get_listing_iff_example :
    (get_and_read answers [] no_signer stoi
        (new_http_session [] [] [])
        []
        (listing_reading lib null (listing_from_json lib (candle_from_json lib)))
        (codes "/p")
        []
        true
      ≡ ok (candle 8 ∷ candle 7 ∷ []))
    ↔ ((response : Http.Response) × (http_get answers [] no_signer
            (new_http_session [] [] [])
            []
            (codes "/p")
            []
            true
          ≡ ok response)
        × (response.result_int ≡ 200)
        × (r : Response Tree) × (stoi r.code ≡ ok (pos 0))
        × HoldsList lib null (candle_from_json lib) response.body r (candle 8 ∷ candle 7 ∷ []))
get_listing_iff_example =
    get_listing_iff lib null (candle_from_json lib) answers [] no_signer stoi
      (new_http_session [] [] []) [] (codes "/p") [] true (candle 8 ∷ candle 7 ∷ [])

-- The call gives the two candles.
two_candles :
    get_and_read answers [] no_signer stoi
      (new_http_session [] [] [])
      []
      (listing_reading lib null (listing_from_json lib (candle_from_json lib)))
      (codes "/p")
      []
      true
    ≡ ok (candle 8 ∷ candle 7 ∷ [])
unfolding get_and_read http_get check_response handle_okx_response listing_reading listing_from_json
    candle_from_json
two_candles = refl
