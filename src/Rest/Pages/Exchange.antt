-- ===== src/Rest/Pages/Exchange.antt =====
-- The exchange's side of the requests for pages: the items that the parameters of a request ask for.
use okx_cpp_api.Prelude.{
  take, ℕ, ◌<◌, ◌≡◌, refl, sym, ap, ◌∙◌, inl, inr, Bool, true, false, ◌&&◌, Option, none, some,
  List, [], ◌∷◌, arith, if◌then◌else◌, Bool-cases, All, Bytes, codes, bytes_eq,
}
use okx_cpp_api.Prelude.Int.{ℤ, minus_one, zero_ℤ, ◌≤ℤ◌, ltb_ℤ, eqb_ℤ, eqb_ℤ_iff}
use okx_cpp_api.Result.{Result, ok}
use okx_cpp_api.Http.{Parameters, insert_or_assign}
use okx_cpp_api.Http.Query.{parameter, parameter-insert_or_assign}
use mathlib.Core.Option.{map}
use okx_cpp_api.History.{range_parameters}
use okx_cpp_api.History.Server.{between, Serves}

-- A bound that is not given holds of every time.
abbrev pub is_below : Option ℤ → ℤ → Bool
is_below none t = true
is_below (some low) t = ltb_ℤ low t

abbrev pub is_above : Option ℤ → ℤ → Bool
is_above none t = true
is_above (some high) t = ltb_ℤ t high

module _ {A : Type 0} (time : A → ℤ) where
  unfoldable pub within : Option ℤ → Option ℤ → List A → List A
  within low high [] = []
  within low high (x ∷ xs) =
      if is_below low (time x) && is_above high (time x)
      then x ∷ within low high xs
      else within low high xs

  within-between :
      (from to : ℤ) (xs : List A) → within (some from) (some to) xs ≡ between time from to xs
  unfolding within between
  within-between from to [] = refl
  within-between from to (x ∷ xs) = rw (within, between, within-between from to xs)

  -- No item is earlier than the time -1, so it does not matter that a request for what is earlier has no
  -- other bound.
  within_none :
      (low : Option ℤ) (xs : List A)
      → All (λ x. zero_ℤ ≤ℤ time x) xs
      → within low (some minus_one) xs ≡ []
  unfolding within
  within_none low [] h = refl
  within_none low (x ∷ xs) (h, hs) = ground (arith, within_none low xs hs)

  module _ (to_string : ℤ → Bytes) (of_string : Bytes → ℤ) where
    -- What the exchange documents: "before" asks for what is later than it, "after" for what is earlier.
    unfoldable pub asked_items : Parameters → List A → List A
    asked_items parameters =
        within (map of_string (parameter (codes "before") parameters))
          (map of_string (parameter (codes "after") parameters))

    -- An exchange with a history: the answer to a request holds the newest of the items that its
    -- parameters ask for, as many as fit in a page, and at least one fits.
    pub record Answers (history : List A) (parameters : ℤ → Parameters) (page : ℤ → Result (List A))
        : Type 0 where
      pub size : ℤ → ℕ
      pub size_pos : (to : ℤ) → 0 < size to
      pub answer : (to : ℤ) → page to ≡ ok (take (size to) (asked_items (parameters to) history))

    module _ (from limit : ℤ) (base : Parameters) where
      limit_of :
          (k : Bytes) (b : Bool) (p : Parameters)
          → bytes_eq (codes "limit") k ≡ false
          → parameter k (if b then p else insert_or_assign (codes "limit") (to_string limit) p)
            ≡ parameter k p
      limit_of k true p h = refl
      limit_of k false p h = rw (parameter-insert_or_assign, h) refl

      after_of :
          (to : ℤ)
          → eqb_ℤ from minus_one ≡ false
          → parameter (codes "after") (range_parameters to_string from to limit base)
            ≡ some (to_string to)
      unfolding range_parameters
      after_of to h =
          limit_of (codes "after") (eqb_ℤ limit minus_one) _ refl
          ∙ elim (Bool-cases (eqb_ℤ to minus_one)) [
            | inl y ↦ rw (h, y, parameter-insert_or_assign) refl
            | inr y ↦ rw (h, y, parameter-insert_or_assign, parameter-insert_or_assign) refl
          ]

      before_of :
          (to : ℤ)
          → eqb_ℤ to minus_one ≡ false
          → parameter (codes "before") (range_parameters to_string from to limit base)
            ≡ some (to_string from)
      unfolding range_parameters
      before_of to h =
          limit_of (codes "before") (eqb_ℤ limit minus_one) _ refl
          ∙ rw (h, parameter-insert_or_assign) refl

      module _ (has_from : eqb_ℤ from minus_one ≡ false)
          (of_string-to_string : (n : ℤ) → of_string (to_string n) ≡ n) (history : List A)
          (not_early : All (λ x. zero_ℤ ≤ℤ time x) history) where
        asked_items-between :
            (to : ℤ)
            → asked_items (range_parameters to_string from to limit base) history
              ≡ between time from to history
        unfolding asked_items
        asked_items-between to = elim (Bool-cases (eqb_ℤ to minus_one)) [
          | inl y ↦
              let last : to ≡ minus_one = (eqb_ℤ_iff to minus_one).0 y in
              rw (asked_items, after_of to has_from, of_string-to_string, last)
                (within_none _ history not_early
                  ∙ (sym (within_none (some from) history not_early)
                      ∙ within-between from minus_one history))
          | inr y ↦
              rw
                (
                  asked_items,
                  after_of to has_from,
                  before_of to y,
                  of_string-to_string to,
                  of_string-to_string from,
                )
                (within-between from to history)
        ]

        -- The pages of an exchange that answers so are those that the loops rely on, when the download has
        -- a first time and no item is earlier than the time 0.
        pub Answers-Serves :
            (page : ℤ → Result (List A))
            → Answers history (λ to. range_parameters to_string from to limit base) page
            → Serves time history from page
        Answers-Serves page answers = record {
          size = answers.size;
          size_pos = answers.size_pos;
          answer = λ to.
              answers.answer to
              ∙ ap (λ xs. ok (take (answers.size to) xs)) (asked_items-between to);
        }
