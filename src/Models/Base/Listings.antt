-- ===== src/Models/Base/Listings.antt =====
-- What the loops over `data.items()` read.
use okx_cpp_api.Prelude.{
  subst, ◌≡◌, sym, ap, ◌∙◌, ◌↔◌, inl, inr, List, [], ◌∷◌, ◌++◌, map, append-nil, append_assoc, back,
}
use okx_cpp_api.Result.{Result, ok, Result-cases}
use okx_cpp_api.Models.Base.{ModelJson, Listing, response_from_json, push_items, listing_from_json}

-- Each value reads as the item at its place.
pub data ReadAs {J A : Type 0} (read_item : J → Result A) : List J → List A → Type 0 where
  nil : ReadAs read_item [] []
  cons :
      (j : J) (a : A) (js : List J) (xs : List A)
      → read_item j ≡ ok a
      → ReadAs read_item js xs
      → ReadAs read_item (j ∷ js) (a ∷ xs)

module _ {J D A : Type 0} (lib : ModelJson J D) (read_item : J → Result A) where
  read_tail :
      (j : J) (js : List J) (a : A) (before out : List A)
      → read_item j ≡ ok a
      → push_items lib read_item before (j ∷ js) ≡ ok out
      → push_items lib read_item (before ++ (a ∷ [])) js ≡ ok out
  unfolding push_items
  read_tail j js a before out e h = rw e at h

  push_items-ReadAs :
      (js : List J) (before out : List A)
      → push_items lib read_item before js ≡ ok out
      → (xs : List A) × ReadAs read_item js xs × (out ≡ before ++ xs)
  unfolding push_items
  push_items-ReadAs [] before out h = ([], nil, rw append-nil cc)
  push_items-ReadAs (j ∷ js) before out h = elim (Result-cases (read_item j)) [
    | inr (x, e) ↦ cc (rw e at h)
    | inl (a, e) ↦
        let (xs, all, q) =
          push_items-ReadAs js (before ++ (a ∷ [])) out (read_tail j js a before out e h) in
        (a ∷ xs, cons j a js xs e all, q ∙ append_assoc before (a ∷ []) xs)
  ]

  pub ReadAs-push_items :
      (js : List J) (xs before : List A)
      → ReadAs read_item js xs
      → push_items lib read_item before js ≡ ok (before ++ xs)
  unfolding push_items
  ReadAs-push_items [] [] before nil = rw append-nil
  ReadAs-push_items [] (x ∷ xs) before h = elim h [ ]
  ReadAs-push_items (j ∷ js) [] before h = elim h [ ]
  ReadAs-push_items (j ∷ js) (a ∷ xs) before (cons _ _ _ _ e h) =
      rw e
        (ReadAs-push_items js xs (before ++ (a ∷ [])) h ∙ ap ok (append_assoc before (a ∷ []) xs))

  -- What `fromJson` of a list of items gives, behind the items that were there.
  abbrev pub IsListing : Listing J A → J → Listing J A → Type 0
  IsListing l j out =
      (response_from_json lib l.response j ≡ ok out.response)
      × (xs : List A) × ReadAs read_item (lib.items out.response.body) xs
      × (out.elements ≡ l.elements ++ xs)

  pub listing_from_json_iff :
      (l out : Listing J A) (j : J)
      → (listing_from_json lib read_item l j ≡ ok out) ↔ IsListing l j out
  unfolding listing_from_json
  listing_from_json_iff l out j = (
    λ h. elim (Result-cases (response_from_json lib l.response j)) [
      | inr (x, e) ↦ cc (rw e at h)
      | inl (r, e) ↦ elim (Result-cases (push_items lib read_item l.elements (lib.items r.body))) [
        | inr (x, p) ↦ cc (rw (e, p) at h)
        | inl (ys, p) ↦
            let same : ok (record { response = r; elements = ys }) ≡ ok out = rw (e, p) at h in
            let given : record { response = r; elements = ys } ≡ out = cc in
            let (xs, all, q) = push_items-ReadAs (lib.items r.body) l.elements ys p in
            subst (IsListing l j) given (e, xs, all, q)
      ]
    ],
    λ (e, xs, all, q).
        rw (e, ReadAs-push_items (lib.items out.response.body) xs l.elements all, sym q),
  )

  -- A writer whose values read back gives a list that reads back.
  pub ReadAs-map :
      (write : A → J)
      → ((a : A) → read_item (write a) ≡ ok a)
      → (xs : List A) → ReadAs read_item (map write xs) xs
  ReadAs-map write back [] = nil
  ReadAs-map write back (x ∷ xs) =
      cons (write x) x (map write xs) xs (back x) (ReadAs-map write back xs)
