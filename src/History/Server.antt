-- ===== src/History/Server.antt =====
-- The exchange's side of a paged download: a history, newest first, and what a page of it is.
use okx_cpp_api.Prelude.{
  take, drop, ℕ, zero, suc, ◌≤◌, ◌<◌, ◌≡◌, refl, ◌&&◌, List, [], ◌∷◌, arith, if◌then◌else◌, length,
  back, All,
}
use okx_cpp_api.Prelude.Int.{ℤ, ◌<ℤ◌, ltb_ℤ}
use okx_cpp_api.Result.{Result, ok}

module _ {A : Type 0} (time : A → ℤ) where
  -- Strictly newest first.
  abbrev pub IsDescending : List A → Type 0
  IsDescending [] = Unit {0}
  IsDescending (x ∷ xs) = All (λ y. time y <ℤ time x) xs × IsDescending xs

  -- The items later than `from` and earlier than `to`.
  unfoldable pub between : ℤ → ℤ → List A → List A
  between from to [] = []
  between from to (x ∷ xs) =
      if ltb_ℤ from (time x) && ltb_ℤ (time x) to
      then x ∷ between from to xs
      else between from to xs

  pub length-between-le : (from to : ℤ) (xs : List A) → length (between from to xs) ≤ length xs
  unfolding between
  length-between-le from to [] = omega arith
  length-between-le from to (x ∷ xs) = ground (arith, length-between-le from to xs)

  -- Within a range, the part before an earlier time is that part of the range.
  pub between-between :
      (from t to : ℤ) (xs : List A)
      → t <ℤ to
      → between from t (between from to xs) ≡ between from t xs
  unfolding between
  between-between from t to [] h = refl
  between-between from t to (x ∷ xs) h = ground (arith, between-between from t to xs h)

  pub between_same :
      (from to : ℤ) (xs : List A)
      → All (λ x. (from <ℤ time x) × (time x <ℤ to)) xs
      → between from to xs ≡ xs
  unfolding between
  between_same from to [] h = refl
  between_same from to (x ∷ xs) (h, hs) = ground (arith, between_same from to xs hs)

  pub between-All :
      (from to : ℤ) (xs : List A)
      → All (λ x. (from <ℤ time x) × (time x <ℤ to)) (between from to xs)
  unfolding between
  between-All from to [] = tt
  between-All from to (x ∷ xs) = ground (arith, between-All from to xs)

  All-between : (P : A → Type 0) (from to : ℤ) (xs : List A) → All P xs → All P (between from to xs)
  unfolding between
  All-between P from to [] h = tt
  All-between P from to (x ∷ xs) h = ground (arith, All-between P from to xs h.1)

  pub between-IsDescending :
      (from to : ℤ) (xs : List A) → IsDescending xs → IsDescending (between from to xs)
  unfolding between
  between-IsDescending from to [] h = tt
  between-IsDescending from to (x ∷ xs) h = ground (
    arith,
    between-IsDescending from to xs h.1,
    All-between (λ y. time y <ℤ time x) from to xs h.0,
  )

  pub All-back_take :
      (P : A → Type 0) (m : ℕ) (x : A) (xs : List A) → P x → All P xs → P (back x (take m xs))
  All-back_take P zero x xs h hs = h
  All-back_take P (suc m) x [] h hs = h
  All-back_take P (suc m) x (y ∷ ys) h (hy, hys) = All-back_take P m y ys hy hys

  narrowed :
      (from t to : ℤ) (xs : List A)
      → All (λ y. time y <ℤ t) xs
      → All (λ y. (from <ℤ time y) × (time y <ℤ to)) xs
      → All (λ y. (from <ℤ time y) × (time y <ℤ t)) xs
  narrowed from t to [] _ _ = tt
  narrowed from t to (x ∷ xs) (h, hs) ((low, _), rs) = ((low, h), narrowed from t to xs hs rs)

  -- Behind a first part of a range stands what is earlier than the last of that part.
  pub between_rest :
      (from to : ℤ) (m : ℕ) (x : A) (xs : List A)
      → IsDescending (x ∷ xs)
      → All (λ y. (from <ℤ time y) × (time y <ℤ to)) (x ∷ xs)
      → between from (time (back x (take m xs))) (x ∷ xs) ≡ drop m xs
  unfolding between
  between_rest from to zero x xs (h, hs) (r, rs) =
      let rest = between_same from (time x) xs (narrowed from (time x) to xs h rs) in
      ground (arith, rest)
  between_rest from to (suc m) x [] (h, hs) (r, rs) = ground arith
  between_rest from to (suc m) x (y ∷ ys) (h, hs) (r, rs) =
      let below = All-back_take (λ z. time z <ℤ time x) m y ys h.0 h.1 in
      ground (arith, between_rest from to m y ys hs rs)

  -- What the exchange documents of its paged lists: a page for the range up to `to` holds the newest
  -- items that are later than `from` and earlier than `to`, as many as fit, and at least one fits.
  pub record Serves (history : List A) (from : ℤ) (page : ℤ → Result (List A)) : Type 0 where
    pub size : ℤ → ℕ
    pub size_pos : (to : ℤ) → 0 < size to
    pub answer : (to : ℤ) → page to ≡ ok (take (size to) (between from to history))
