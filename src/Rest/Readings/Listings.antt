-- ===== src/Rest/Readings/Listings.antt =====
-- A call for a list, from the network to the items.
use okx_cpp_api.Prelude.{subst, ◌≡◌, refl, sym, ap, ◌∙◌, ◌↔◌, inl, inr, Bool, List, Bytes}
use okx_cpp_api.Prelude.Int.{ℤ, pos}
use okx_cpp_api.Result.{Result, ok, Result-cases}
use okx_cpp_api.Http
use okx_cpp_api.Http.{Parameters, HttpSession, Signer, Network, http_get}
use okx_cpp_api.Models.Base.{
  ModelJson, Response, new_listing, new_response, response_from_json, listing_from_json,
}
use okx_cpp_api.Models.Base.Listings.{ReadAs, listing_from_json_iff}
use okx_cpp_api.Rest.{Reading, get_and_read}
use okx_cpp_api.Rest.Calls.{get_and_read_iff}
use okx_cpp_api.Rest.Readings.{listing_reading}

module _ {J D A : Type 0} (lib : ModelJson J D) (null : J) (read_item : J → Result A) where
  abbrev list_reading : Bytes → Result (Reading (List A))
  list_reading = listing_reading lib null (listing_from_json lib read_item)

  -- A body that holds a list: JSON that reads as a response whose `data` has these items.
  abbrev pub HoldsList : Bytes → Response J → List A → Type 0
  HoldsList body r xs =
      (j : J) × (lib.json.parse body ≡ ok j)
      × (response_from_json lib (new_response null) j ≡ ok r)
      × ReadAs read_item (lib.items r.body) xs

  list_reading_holds :
      (body : Bytes) (rd : Reading (List A))
      → list_reading body ≡ ok rd
      → (r : Response J) × (rd.code ≡ r.code) × HoldsList body r rd.value
  unfolding listing_reading
  list_reading_holds body rd h = elim (Result-cases (lib.json.parse body)) [
    | inr (e, p) ↦ cc (rw p at h)
    | inl (j, p) ↦ elim (Result-cases (listing_from_json lib read_item (new_listing null) j)) [
      | inr (e, q) ↦ cc (rw (p, q) at h)
      | inl (l, q) ↦
          let (read, xs, all, same) =
            (listing_from_json_iff lib read_item (new_listing null) l j).0 q in
          let made : Reading (List A) = record {
            code = l.response.code;
            msg = l.response.msg;
            value = l.elements;
          } in
          let given : ok made ≡ ok rd = rw (p, q) at h in
          let e : made ≡ rd = cc in
          let kept =
            subst (λ ys. ReadAs read_item (lib.items l.response.body) ys)
              (sym same ∙ ap (λ x. x.value) e) all in
          (l.response, sym (ap (λ x. x.code) e), (j, p, read, kept))
    ]
  ]

  HoldsList-reading :
      (body : Bytes) (r : Response J) (xs : List A)
      → HoldsList body r xs
      → list_reading body ≡ ok (record { code = r.code; msg = r.msg; value = xs })
  unfolding listing_reading
  HoldsList-reading body r xs (j, p, read, all) = rw (
    p,
    (listing_from_json_iff lib read_item (new_listing null) (record { response = r; elements = xs })
          j).1
        (read, xs, all, refl),
  )

  -- A call for a list gives exactly the items of a response: it gives `xs` if and only if the exchange
  -- answers with the status 200 and a body of JSON that reads as a response whose code is a text of 0
  -- and whose `data` has items that read, in their order, as `xs`. So no item is lost or added.
  pub get_listing_iff :
      (network : Network) (version : Bytes) (signer : Signer) (stoi : Bytes → Result ℤ)
      (session : HttpSession) (ts path : Bytes) (parameters : Parameters) (is_public : Bool)
      (xs : List A)
      → (get_and_read network version signer stoi session ts
            (listing_reading lib null (listing_from_json lib read_item))
            path
            parameters
            is_public
          ≡ ok xs)
        ↔ ((response : Http.Response) × (http_get network version signer session ts path parameters
                is_public
              ≡ ok response)
            × (response.result_int ≡ 200)
            × (r : Response J) × (stoi r.code ≡ ok (pos 0))
            × HoldsList response.body r xs)
  get_listing_iff network version signer stoi session ts path parameters is_public xs =
      let answered =
        get_and_read_iff network version signer stoi list_reading session ts path parameters
          is_public xs in
      (
        λ h.
            let (response, got, (status, rd, read, code, value)) = answered.0 h in
            let (r, same, holds) = list_reading_holds response.body rd read in
            (
              response,
              got,
              status,
              r,
              ap stoi (sym same) ∙ code,
              subst (λ ys. HoldsList response.body r ys) value holds,
            ),
        λ (response, got, status, r, code, holds). answered.1 (
          response,
          got,
          (
            status,
            record { code = r.code; msg = r.msg; value = xs },
            HoldsList-reading response.body r xs holds,
            code,
            refl,
          ),
        ),
      )
