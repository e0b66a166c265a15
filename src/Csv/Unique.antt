-- ===== src/Csv/Unique.antt =====
-- Keeping the first item of each time stamp, as a loop over a set of stamps and as a description.
use okx_cpp_api.Prelude.{
  ◌≡◌, refl, sym, ap, ◌∙◌, ◌≢◌, inl, inr, Bool, true, false, Option, none, some, List, [], ◌∷◌,
  ◌++◌, append-nil, append_assoc, arith, if◌then◌else◌, Bool-cases, All, Bytes,
}
use okx_cpp_api.Prelude.Int.{ℤ, eqb_ℤ, eqb_ℤ_iff}
use okx_cpp_api.Csv.{Reader, add_item, contains_ts}

-- The items of a list of rows, where a row may have none.
unfoldable pub present : {A : Type 0} → List (Option A) → List A
present [] = []
present (none ∷ rs) = present rs
present (some a ∷ rs) = a ∷ present rs

module _ {A : Type 0} (key : A → ℤ) where
  -- The items with other stamps than `t`.
  pub without : ℤ → List A → List A
  without t [] = []
  without t (x ∷ xs) = if eqb_ℤ t (key x) then without t xs else x ∷ without t xs

  -- The first item of each stamp, in the order of the list.
  unfoldable pub first_of_each : List A → List A
  first_of_each [] = []
  first_of_each (x ∷ xs) = x ∷ without (key x) (first_of_each xs)

  -- The items whose stamp is none of `seen`.
  unseen : List ℤ → List A → List A
  unseen seen [] = []
  unseen seen (x ∷ xs) = if contains_ts seen (key x) then unseen seen xs else x ∷ unseen seen xs

  unseen-nil : (xs : List A) → unseen [] xs ≡ xs
  unfolding unseen contains_ts
  unseen-nil [] = refl
  unseen-nil (x ∷ xs) = ap (◌∷◌ x) (unseen-nil xs)

  -- A stamp that is seen already hides nothing more.
  unseen-without :
      (seen : List ℤ) (t : ℤ) (xs : List A)
      → contains_ts seen t ≡ true
      → unseen seen (without t xs) ≡ unseen seen xs
  unfolding unseen without
  unseen-without seen t [] h = refl
  unseen-without seen t (x ∷ xs) h = ground (arith, eqb_ℤ_iff t (key x), unseen-without seen t xs h)

  unseen_cons :
      (seen : List ℤ) (t : ℤ) (xs : List A) → unseen seen (without t xs) ≡ unseen (t ∷ seen) xs
  unfolding unseen without contains_ts
  unseen_cons seen t [] = refl
  unseen_cons seen t (x ∷ xs) = ground (arith, unseen_cons seen t xs)

  unseen_none : (seen : List ℤ) → unseen seen [] ≡ []
  unfolding unseen
  unseen_none seen = refl

  unseen_head_old :
      (seen : List ℤ) (a : A) (xs : List A)
      → contains_ts seen (key a) ≡ true
      → unseen seen (a ∷ without (key a) xs) ≡ unseen seen xs
  unfolding unseen
  unseen_head_old seen a xs h = rw h (unseen-without seen (key a) xs h)

  unseen_head_new :
      (seen : List ℤ) (a : A) (xs : List A)
      → contains_ts seen (key a) ≡ false
      → unseen seen (a ∷ without (key a) xs) ≡ a ∷ unseen (key a ∷ seen) xs
  unfolding unseen
  unseen_head_new seen a xs h = rw h (ap (◌∷◌ a) (unseen_cons seen (key a) xs))

  module _ (row : List Bytes → Option A) where
    unfoldable pub add_items : Reader A → List (Option A) → Reader A
    add_items s [] = s
    add_items s (r ∷ rs) = add_items (add_item key row s r) rs

    add_item_old :
        (s : Reader A) (a : A)
        → contains_ts s.seen_timestamps (key a) ≡ true
        → add_item key row s (some a) ≡ s
    unfolding add_item
    add_item_old s a h = rw h

    add_item_new :
        (s : Reader A) (a : A)
        → contains_ts s.seen_timestamps (key a) ≡ false
        → add_item key row s (some a)
          ≡ record s { seen_timestamps = key a ∷ s.seen_timestamps; items = s.items ++ (a ∷ []) }
    unfolding add_item
    add_item_new s a h = rw h

    add_item-none : (s : Reader A) → add_item key row s none ≡ s
    unfolding add_item
    add_item-none s = refl

    add_items-unseen :
        (s : Reader A) (rs : List (Option A))
        → (add_items s rs).items ≡ s.items ++ unseen s.seen_timestamps (first_of_each (present rs))
    unfolding add_items first_of_each present
    add_items-unseen s [] = rw (unseen_none s.seen_timestamps, append-nil)
    add_items-unseen s (none ∷ rs) =
        ap (λ u. (add_items u rs).items) (add_item-none s) ∙ add_items-unseen s rs
    add_items-unseen s (some a ∷ rs) =
        let seen = s.seen_timestamps in
        let rest = first_of_each (present rs) in
        elim (Bool-cases (contains_ts seen (key a))) [
          | inl old ↦
              ap (λ u. (add_items u rs).items) (add_item_old s a old)
              ∙ (add_items-unseen s rs ∙ ap (◌++◌ s.items) (sym (unseen_head_old seen a rest old)))
          | inr new ↦
              ap (λ u. (add_items u rs).items) (add_item_new s a new)
              ∙ (add_items-unseen
                    (record s { seen_timestamps = key a ∷ seen; items = s.items ++ (a ∷ []) }) rs
                  ∙ (append_assoc s.items (a ∷ []) _
                      ∙ ap (◌++◌ s.items) (sym (unseen_head_new seen a rest new))))
        ]

    -- Items added to nothing are the first of each stamp.
    pub add_items_new :
        (first : Bool) (rs : List (Option A))
        → (add_items (record { is_first_line = first; seen_timestamps = []; items = [] }) rs).items
          ≡ first_of_each (present rs)
    add_items_new first rs =
        add_items-unseen (record { is_first_line = first; seen_timestamps = []; items = [] }) rs
        ∙ unseen-nil (first_of_each (present rs))

  -- No two items have one stamp.
  abbrev pub IsUnique : List A → Type 0
  IsUnique [] = Unit {0}
  IsUnique (x ∷ xs) = All (λ y. key y ≢ key x) xs × IsUnique xs

  without-All : (P : A → Type 0) (t : ℤ) (xs : List A) → All P xs → All P (without t xs)
  unfolding without
  without-All P t [] h = tt
  without-All P t (x ∷ xs) h = ground (arith, without-All P t xs h.1)

  without_ne : (t : ℤ) (xs : List A) → All (λ y. key y ≢ t) (without t xs)
  unfolding without
  without_ne t [] = tt
  without_ne t (x ∷ xs) = ground (arith, eqb_ℤ_iff t (key x), without_ne t xs)

  without-IsUnique : (t : ℤ) (xs : List A) → IsUnique xs → IsUnique (without t xs)
  unfolding without
  without-IsUnique t [] h = tt
  without-IsUnique t (x ∷ xs) h =
      ground (arith, without-IsUnique t xs h.1, without-All (λ y. key y ≢ key x) t xs h.0)

  pub first_of_each-IsUnique : (xs : List A) → IsUnique (first_of_each xs)
  unfolding first_of_each
  first_of_each-IsUnique [] = tt
  first_of_each-IsUnique (x ∷ xs) = (
    without_ne (key x) (first_of_each xs),
    without-IsUnique (key x) (first_of_each xs) (first_of_each-IsUnique xs),
  )

  pub first_of_each-All : (P : A → Type 0) (xs : List A) → All P xs → All P (first_of_each xs)
  unfolding first_of_each
  first_of_each-All P [] h = tt
  first_of_each-All P (x ∷ xs) (h, hs) =
      (h, without-All P (key x) (first_of_each xs) (first_of_each-All P xs hs))
