-- ===== src/Rest/Calls.antt =====
-- When a call of the client gives a value.
use okx_cpp_api.Prelude.{◌≡◌, ap, ◌∙◌, ◌↔◌, inl, inr, Bool, ◌==◌, ==_iff, Bool-cases, Bytes}
use okx_cpp_api.Prelude.Int.{ℤ, pos, eqb_ℤ, eqb_ℤ_iff}
use okx_cpp_api.Result.{Result, ok, Result-cases, ◌>>=◌}
use okx_cpp_api.Http.{Parameters, HttpSession, Signer, Network, Response, http_get}
use okx_cpp_api.Rest.{Reading, check_response, handle_okx_response, get_and_read}

-- What stands behind a value: a response with the status 200 whose body reads, with a code that is a
-- text of 0.
abbrev pub IsAnswer :
    {V : Type 0} → (Bytes → Result ℤ) → (Bytes → Result (Reading V)) → V → Response → Type 0
IsAnswer {V = V} stoi from_json v response =
    (response.result_int ≡ 200)
    × (r : Reading V) × (from_json response.body ≡ ok r)
    × (stoi r.code ≡ ok (pos 0))
    × (r.value ≡ v)

module _ {V : Type 0} (stoi : Bytes → Result ℤ) (from_json : Bytes → Result (Reading V)) where
  code_is_0 :
      (r : Reading V) (v : V) (body : Bytes) (response : Response)
      → from_json response.body ≡ ok r
      → handle_okx_response stoi from_json response ≡ ok v
      → (stoi r.code ≡ ok (pos 0)) × (r.value ≡ v)
  unfolding handle_okx_response
  code_is_0 r v body response read h = elim (Result-cases (stoi r.code)) [
    | inr (e, s) ↦ cc (rw (read, s) at h)
    | inl (n, s) ↦ elim (Bool-cases (eqb_ℤ n (pos 0))) [
      | inl y ↦
          let given : ok r.value ≡ ok v = rw (read, s, y) at h in
          (s ∙ ap ok ((eqb_ℤ_iff n (pos 0)).0 y), cc)
      | inr y ↦ cc (rw (read, s, y) at h)
    ]
  ]

  check_response-IsAnswer :
      (v : V) (response : Response)
      → (check_response response >>= handle_okx_response stoi from_json) ≡ ok v
      → IsAnswer stoi from_json v response
  unfolding check_response handle_okx_response
  check_response-IsAnswer v response h = elim (Bool-cases (response.result_int == 200)) [
    | inr n ↦ cc (rw n at h)
    | inl y ↦ elim (Result-cases (from_json response.body)) [
      | inr (e, read) ↦ cc (rw (y, read) at h)
      | inl (r, read) ↦
          let (code, value) = code_is_0 r v response.body response read (rw y at h) in
          ((==_iff response.result_int 200).0 y, r, read, code, value)
    ]
  ]

  of_answer :
      (v : V) (response : Response)
      → IsAnswer stoi from_json v response
      → (check_response response >>= handle_okx_response stoi from_json) ≡ ok v
  unfolding check_response handle_okx_response
  of_answer v response (status, r, read, code, value) = rw (status, read, code, value)

module _ (network : Network) (version : Bytes) (signer : Signer) (stoi : Bytes → Result ℤ)
    {V : Type 0} (from_json : Bytes → Result (Reading V)) where
  -- A call gives a value exactly if the exchange answers the request with the status 200, a body that
  -- reads as that value, and a code that is a number and is 0.
  pub get_and_read_iff :
      (session : HttpSession) (ts path : Bytes) (parameters : Parameters) (is_public : Bool) (v : V)
      → (get_and_read network version signer stoi session ts from_json path parameters is_public
          ≡ ok v)
        ↔ ((response : Response) × (http_get network version signer session ts path parameters
                is_public
              ≡ ok response)
            × IsAnswer stoi from_json v response)
  unfolding get_and_read
  get_and_read_iff session ts path parameters is_public v = (
    λ h.
        elim (Result-cases (http_get network version signer session ts path parameters is_public)) [
          | inl (response, e) ↦
              (response, e, check_response-IsAnswer stoi from_json v response (rw e at h))
          | inr (x, e) ↦ cc (rw e at h)
        ],
    λ (response, e, answer). rw e (of_answer stoi from_json v response answer),
  )
