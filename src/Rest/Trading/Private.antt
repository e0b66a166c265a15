-- ===== src/Rest/Trading/Private.antt =====
-- What the private calls send.
use okx_cpp_api.Prelude.{◌≡◌, refl, ap, false, List, append-nil, Bytes}
use okx_cpp_api.Prelude.Int.{ℤ}
use okx_cpp_api.Result.{Result, ◌>>=◌}
use okx_cpp_api.Http.{
  Parameters, HttpSession, Request, Signer, Network, Response, request, http_get, http_post,
  get_request, post_request,
}
use okx_cpp_api.Http.Query.{parameter}
use okx_cpp_api.Http.Signing.{IsSigned}
use okx_cpp_api.Rest.{RestClient, Reading, check_response, handle_okx_response, get_and_read}
use okx_cpp_api.Rest.Trading.{
  get_balance, get_positions, get_order_detail, post_and_read, place_order, cancel_order,
}

-- Two networks that answer each request alike that is signed for the session.
abbrev pub Agree : Signer → HttpSession → Bytes → Network → Network → Type 0
Agree signer session ts network network' =
    (host : Bytes) (r : Request) → IsSigned signer session ts r → network host r ≡ network' host r

module _ (network network' : Network) (version : Bytes) (signer : Signer) (session : HttpSession)
    (ts : Bytes) (agree : Agree signer session ts network network') where
  http_get-Agree :
      (path : Bytes) (parameters : Parameters)
      → http_get network version signer session ts path parameters false
        ≡ http_get network' version signer session ts path parameters false
  unfolding http_get request get_request parameter
  http_get-Agree path parameters =
      agree session.uri _
        (record { key = refl; signature = rw append-nil; timestamp = refl; passphrase = refl })

  http_post-Agree :
      (path json : Bytes)
      → http_post network version signer session ts path json false
        ≡ http_post network' version signer session ts path json false
  unfolding http_post request post_request parameter
  http_post-Agree path json =
      agree session.uri _
        (record { key = refl; signature = refl; timestamp = refl; passphrase = refl })

module _ (network network' : Network) (version : Bytes) (signer : Signer) (stoi : Bytes → Result ℤ)
    {I V : Type 0} (client : RestClient I) (ts : Bytes)
    (from_json : Bytes → Result (Reading V)) where
  -- The private calls send nothing but signed requests: networks that answer every request alike that
  -- is signed with the client's key, secret and passphrase at the time of the call give the same
  -- balances, positions, order details, placed orders and cancelled orders, whatever they answer to
  -- any other request.
  pub private_calls_signed :
      Agree signer client.http_session ts network network'
      → ((ccy : Bytes)
          → get_balance network version signer stoi client ts from_json ccy
            ≡ get_balance network' version signer stoi client ts from_json ccy)
        × ((inst_type inst_id : Bytes)
            → get_positions network version signer stoi client ts from_json inst_type inst_id
              ≡ get_positions network' version signer stoi client ts from_json inst_type inst_id)
        × ((inst_id client_id order_id : Bytes)
            → get_order_detail network version signer stoi client ts from_json inst_id client_id
                order_id
              ≡ get_order_detail network' version signer stoi client ts from_json inst_id client_id
                  order_id)
        × ((order : Bytes)
            → place_order network version signer stoi client ts from_json order
              ≡ place_order network' version signer stoi client ts from_json order)
        × ((dump : List (Bytes × Bytes) → Bytes) (inst_id client_id order_id : Bytes)
            → cancel_order network version signer stoi client ts from_json dump inst_id client_id
                order_id
              ≡ cancel_order network' version signer stoi client ts from_json dump inst_id client_id
                  order_id)
  unfolding get_balance get_positions get_order_detail place_order cancel_order post_and_read
      get_and_read
  private_calls_signed agree =
      let get_alike = http_get-Agree network network' version signer client.http_session ts agree in
      let post_alike =
        http_post-Agree network network' version signer client.http_session ts agree in
      let read : Result Response → Result V =
        λ r. r >>= (λ response. check_response response >>= handle_okx_response stoi from_json) in
      (
        λ ccy. ap read (get_alike _ _),
        λ inst_type inst_id. ap read (get_alike _ _),
        λ inst_id client_id order_id. ap read (get_alike _ _),
        λ order. ap read (post_alike _ _),
        λ dump inst_id client_id order_id. ap read (post_alike _ _),
      )
