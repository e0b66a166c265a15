-- ===== src/Http/Examples.antt =====
-- Query strings, signatures and URLs on concrete texts.
use okx_cpp_api.Prelude.{◌≡◌, refl, ◌≢◌, ◌⊎◌, true, false, [], ◌∷◌, ◌++◌, arith, Bytes, codes}
use okx_cpp_api.Result.{ok, err, Error}
use okx_cpp_api.Http.{
  Parameters, insert_or_assign, create_query_str, Signer, HttpSession, get_request, post_request,
  split_url, https_prefix,
}
use okx_cpp_api.Http.Query.{read_query, read_query-create_query_str}
use okx_cpp_api.Http.Signing.{IsSigned, private-IsSigned}
use okx_cpp_api.Http.Url.{split_url_iff, IsAddress}

-- The parameters of a request for candles.
abbrev candles_query : Parameters
candles_query = (codes "bar", codes "1H") ∷ (codes "instId", codes "BTC-USDT-SWAP") ∷ []

query_in_key_order :
    create_query_str (
      insert_or_assign
        (codes "bar")
        (codes "1H")
        (insert_or_assign (codes "instId") (codes "BTC-USDT-SWAP") []))
    ≡ codes "bar=1H&instId=BTC-USDT-SWAP"
unfolding create_query_str insert_or_assign
query_in_key_order = refl

read_query-create_query_str_example :
    ((candles_query ≡ []) × (create_query_str candles_query ≡ []))
    ⊎ ((create_query_str candles_query ≢ [])
        × (read_query (create_query_str candles_query) ≡ candles_query))
read_query-create_query_str_example = read_query-create_query_str candles_query (omega arith)

-- A signer that shows the secret and the message.
abbrev plain_signer : Signer
plain_signer = record { sign = λ secret message. secret ++ message }

abbrev session : HttpSession
session = record {
  api_key = codes "key";
  api_secret = codes "secret";
  passphrase = codes "pass";
  uri = codes "www.okx.com";
}

private-IsSigned_example :
    IsSigned plain_signer session
      (codes "T")
      (get_request plain_signer session (codes "T") (codes "/api") candles_query false)
    × IsSigned plain_signer session
        (codes "T")
        (post_request plain_signer session (codes "T") (codes "/api") (codes "{}") false)
    × ((post_request plain_signer session (codes "T") (codes "/api") (codes "{}") false).body
        ≡ codes "{}")
    × ((get_request plain_signer session (codes "T") (codes "/api") candles_query true).headers
        ≡ [])
private-IsSigned_example =
    private-IsSigned plain_signer session (codes "T") (codes "/api") candles_query (codes "{}")

abbrev file_url : Bytes
file_url = codes "https://static.okx.com/cdn/x.zip"

file_url_split : split_url file_url ≡ ok (codes "static.okx.com", codes "/cdn/x.zip")
unfolding split_url
file_url_split = refl

split_url_iff_example :
    ((rest : Bytes) × (host : Bytes) × (path : Bytes) × (file_url ≡ https_prefix ++ rest)
      × (split_url file_url ≡ ok (host, path))
      × IsAddress rest host path)
    ⊎ (((rest : Bytes) → file_url ≢ https_prefix ++ rest)
        × ((e : Error) × (split_url file_url ≡ err e)))
split_url_iff_example = split_url_iff file_url
