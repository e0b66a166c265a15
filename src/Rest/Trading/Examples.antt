-- ===== src/Rest/Trading/Examples.antt =====
-- A network that answers everything, and one that refuses what has no key.
use okx_cpp_api.Prelude.{ℕ, ◌≡◌, none, some, List, [], ◌++◌, Bytes, codes}
use okx_cpp_api.Prelude.Int.{ℤ, pos}
use okx_cpp_api.Result.{Result, ok, err, foreign}
use okx_cpp_api.Http.{Signer, Network}
use okx_cpp_api.Http.Query.{parameter}
use okx_cpp_api.Rest.{RestClient, Reading, new_rest_client}
use okx_cpp_api.Rest.Trading.{
  get_balance, get_positions, get_order_detail, place_order, cancel_order,
}
use okx_cpp_api.Rest.Trading.Private.{Agree, private_calls_signed}

abbrev plain_signer : Signer
plain_signer = record { sign = λ secret message. secret ++ message }

abbrev lenient : Network
lenient host r = ok (record { result_int = 200; body = r.target })

abbrev strict : Network
strict host r = elim (parameter (codes "OK-ACCESS-KEY") r.headers) [
  | none ↦ err (foreign [])
  | some _ ↦ ok (record { result_int = 200; body = r.target })
]

abbrev target_of : Bytes → Result (Reading Bytes)
target_of body = ok (record { code = []; msg = []; value = body })

abbrev client : RestClient ℕ
client = new_rest_client (codes "key") (codes "secret") (codes "phrase")

lenient-strict : Agree plain_signer client.http_session [] lenient strict
lenient-strict host r signed = rw (strict, signed.key)

abbrev zero_code : Bytes → Result ℤ
zero_code s = ok (pos 0)

private_calls_signed_example :
    ((ccy : Bytes)
      → get_balance lenient [] plain_signer zero_code client [] target_of ccy
        ≡ get_balance strict [] plain_signer zero_code client [] target_of ccy)
    × ((inst_type inst_id : Bytes)
        → get_positions lenient [] plain_signer zero_code client [] target_of inst_type inst_id
          ≡ get_positions strict [] plain_signer zero_code client [] target_of inst_type inst_id)
    × ((inst_id client_id order_id : Bytes)
        → get_order_detail lenient [] plain_signer zero_code client [] target_of inst_id client_id
            order_id
          ≡ get_order_detail strict [] plain_signer zero_code client [] target_of inst_id client_id
              order_id)
    × ((order : Bytes)
        → place_order lenient [] plain_signer zero_code client [] target_of order
          ≡ place_order strict [] plain_signer zero_code client [] target_of order)
    × ((dump : List (Bytes × Bytes) → Bytes) (inst_id client_id order_id : Bytes)
        → cancel_order lenient [] plain_signer zero_code client [] target_of dump inst_id client_id
            order_id
          ≡ cancel_order strict [] plain_signer zero_code client [] target_of dump inst_id client_id
              order_id)
private_calls_signed_example =
    private_calls_signed lenient strict [] plain_signer zero_code client [] target_of lenient-strict
