-- ===== src/Rest/Examples.antt =====
-- The client on small responses. A body is its own code, and the instruments are numbers.
use okx_cpp_api.Prelude.{ℕ, ◌≡◌, ◌↔◌, true, List, [], ◌∷◌, if◌then◌else◌, Bytes, codes, bytes_eq}
use okx_cpp_api.Prelude.Int.{ℤ, pos}
use okx_cpp_api.Result.{Result, ok}
use okx_cpp_api.Http.{Signer, Network, Response, http_get, new_http_session}
use okx_cpp_api.Rest.{RestClient, Reading, new_rest_client, set_instruments, get_and_read}
use okx_cpp_api.Rest.Calls.{IsAnswer, get_and_read_iff}

abbrev no_signer : Signer
no_signer = record { sign = λ secret message. [] }

abbrev answers : ℕ → Network
answers status host req = ok (record { result_int = status; body = codes "0" })

abbrev read_code : Bytes → Result ℤ
read_code s = if bytes_eq s (codes "0") then ok (pos 0) else ok (pos 1)

abbrev instruments_of : Bytes → Result (Reading (List ℕ))
instruments_of body = ok (record { code = body; msg = []; value = 7 ∷ 8 ∷ [] })

abbrev fresh : RestClient ℕ
fresh = new_rest_client (codes "key") (codes "secret") (codes "phrase")

abbrev filled : RestClient ℕ
filled = set_instruments fresh (7 ∷ 8 ∷ [])

get_and_read_iff_example :
    (get_and_read
        (answers 200)
        []
        no_signer
        read_code
        (new_http_session [] [] [])
        []
        instruments_of
        (codes "/p")
        []
        true
      ≡ ok (7 ∷ 8 ∷ []))
    ↔ ((response : Response) × (http_get
            (answers 200)
            []
            no_signer
            (new_http_session [] [] [])
            []
            (codes "/p")
            []
            true
          ≡ ok response)
        × IsAnswer read_code instruments_of (7 ∷ 8 ∷ []) response)
get_and_read_iff_example =
    get_and_read_iff (answers 200) [] no_signer read_code instruments_of (new_http_session [] [] [])
      [] (codes "/p") [] true (7 ∷ 8 ∷ [])
