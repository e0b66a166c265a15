-- ===== src/Rest/Trading.antt =====
-- The private calls of src/okx_rest_client.cpp: balance, positions and orders.
pub mod Private
mod Examples
use okx_cpp_api.Prelude.{false, not, List, [], ◌∷◌, if◌then◌else◌, is_empty, Bytes, codes}
use okx_cpp_api.Prelude.Int.{ℤ}
use okx_cpp_api.Result.{Result, ◌>>=◌}
use okx_cpp_api.Http.{Parameters, insert_or_assign, Signer, Network, http_post}
use okx_cpp_api.Rest.{RestClient, Reading, check_response, handle_okx_response, get_and_read}

-- The parameter of `getBalance`.
pub balance_parameters : Bytes → Parameters
balance_parameters ccy = if not (is_empty ccy) then insert_or_assign (codes "ccy") ccy [] else []

-- Those of `getPositions`; `inst_type` is the name of the instrument type.
pub position_parameters : Bytes → Bytes → Parameters
position_parameters inst_type inst_id =
    let parameters = insert_or_assign (codes "instType") inst_type [] in
    if not (is_empty inst_id)
    then insert_or_assign (codes "instId") inst_id parameters
    else parameters

-- Those of `getOrderDetail`.
pub order_parameters : Bytes → Bytes → Bytes → Parameters
order_parameters inst_id client_order_id order_id = insert_or_assign (codes "ordId") order_id (
    insert_or_assign (codes "clOrdId") client_order_id
      (insert_or_assign (codes "instId") inst_id []))

module _ (network : Network) (version : Bytes) (signer : Signer) (stoi : Bytes → Result ℤ)
    {I V : Type 0} (client : RestClient I) (ts : Bytes)
    (from_json : Bytes → Result (Reading V)) where
  -- `RESTClient::getBalance`.
  pub get_balance : Bytes → Result V
  get_balance ccy =
      get_and_read network version signer stoi client.http_session ts from_json
        (codes "/api/v5/account/balance") (balance_parameters ccy) false

  -- `RESTClient::getPositions`.
  pub get_positions : Bytes → Bytes → Result V
  get_positions inst_type inst_id =
      get_and_read network version signer stoi client.http_session ts from_json
        (codes "/api/v5/account/positions") (position_parameters inst_type inst_id) false

  -- `RESTClient::getOrderDetail`.
  pub get_order_detail : Bytes → Bytes → Bytes → Result V
  get_order_detail inst_id client_order_id order_id =
      get_and_read network version signer stoi client.http_session ts from_json
        (codes "/api/v5/trade/order") (order_parameters inst_id client_order_id order_id) false

  -- `checkResponse(post(...))`, then `handleOKXResponse`; the callers give the dumped JSON.
  pub post_and_read : Bytes → Bytes → Result V
  post_and_read path json =
      http_post network version signer client.http_session ts path json false
      >>= (λ response. check_response response >>= handle_okx_response stoi from_json)

  -- `RESTClient::placeOrder`, of an order whose `toJson()` dumps to `order`.
  pub place_order : Bytes → Result V
  place_order order = post_and_read (codes "/api/v5/trade/order") order

  -- `RESTClient::cancelOrder`; `dump` makes the text of an object of texts.
  pub cancel_order : (List (Bytes × Bytes) → Bytes) → Bytes → Bytes → Bytes → Result V
  cancel_order dump inst_id client_order_id order_id =
      post_and_read (codes "/api/v5/trade/cancel-order") (
        dump (
          (codes "instId", inst_id)
          ∷ (codes "clOrdId", client_order_id)
          ∷ (codes "ordId", order_id)
          ∷ []))
