-- ===== src/History/Complete.antt =====
-- A paged download of an honest exchange ends, and gives the whole range once.
use okx_cpp_api.Prelude.{
  lt→ltb, take-append-drop, length-drop-le, drop, take, ℕ, zero, suc, ◌≤◌, ◌<◌, ◌≡◌, refl, sym, ap,
  ◌∙◌, inl, inr, Bool, false, List, [], ◌∷◌, ◌++◌, reverse, append-nil, append_assoc, arith,
  Bool-cases, length, back, All,
}
use okx_cpp_api.Prelude.Int.{ℤ, ◌<ℤ◌, ltb_ℤ}
use okx_cpp_api.Result.{Result, ok}
use okx_cpp_api.Models.{Candle}
use okx_cpp_api.History.{
  Outcome, returned, Pages, page_loop, fetch_pages, candle_batch, drop_invalid,
  get_historical_prices, get_funding_rates,
}
use okx_cpp_api.History.Server.{
  length-between-le, IsDescending, between, between-between, between-All, between-IsDescending,
  between_rest, All-back_take, Serves,
}

module _ {A : Type 0} (time : A → ℤ) (emit : A → List A → List (List A)) (from : ℤ)
    (page : ℤ → Result (List A)) where
  -- One round that asks for a further page.
  pub page_loop_next :
      (fuel : ℕ) (s : Pages A) (x : A) (xs : List A) (next : List A)
      → from <ℤ time (back x (xs))
      → page (time (back x (xs))) ≡ ok next
      → page_loop time emit from page (suc fuel) s (x ∷ xs)
        ≡ page_loop time emit from page fuel
            (record { ret_val = s.ret_val ++ (x ∷ xs); written = s.written ++ emit x (xs) })
            next
  unfolding page_loop
  page_loop_next fuel s x xs next h e = rw (lt→ltb _ _ h, e)

module _ {A : Type 0} (time : A → ℤ) (emit : A → List A → List (List A)) (from : ℤ)
    (page : ℤ → Result (List A)) (history : List A) (sorted : IsDescending time history)
    (serves : Serves time history from page) where
  abbrev Downloads : Pages A → List A → Pages A × Outcome (Unit {0}) → Type 0
  Downloads s rows r =
      (w : List (List A)) × (r ≡ (record { ret_val = s.ret_val ++ rows; written = w }, returned tt))

  page_loop_all :
      (fuel n : ℕ) (s : Pages A) (to : ℤ) (rows : List A)
      → between time from to history ≡ rows
      → length rows ≤ fuel
      → 0 < n
      → Downloads s rows (page_loop time emit from page fuel s (take n rows))
  unfolding page_loop
  page_loop_all fuel zero s to rows e h pos = absurd (omega arith)
  page_loop_all fuel (suc m) s to [] e h pos = (s.written, rw append-nil)
  page_loop_all zero (suc m) s to (x ∷ xs) e h pos = absurd (omega arith)
  page_loop_all (suc fuel) (suc m) s to (x ∷ xs) e h pos =
      let range : All (λ y. (from <ℤ time y) × (time y <ℤ to)) (x ∷ xs) =
        rw e at (between-All time from to history) in
      let down : IsDescending time (x ∷ xs) =
        rw e at (between-IsDescending time from to history sorted) in
      let last = time (back x (take m xs)) in
      let inside : (from <ℤ last) × (last <ℤ to) =
        All-back_take time (λ y. (from <ℤ time y) × (time y <ℤ to)) m x xs range.0 range.1 in
      let rest : between time from last history ≡ drop m xs =
        sym (between-between time from last to history inside.1)
        ∙ (ap (between time from last) e ∙ between_rest time from to m x xs down range) in
      let answer : page last ≡ ok (take (serves.size last) (drop m xs)) =
        rw rest at (serves.answer last) in
      let (w, done) =
        page_loop_all fuel (serves.size last)
          (record {
            ret_val = s.ret_val ++ (x ∷ take m xs);
            written = s.written ++ emit x (take m xs);
          })
          last (drop m xs) rest (omega (arith, length-drop-le m xs)) (serves.size_pos last) in
      (
        w,
        page_loop_next time emit from page fuel s x (take m xs) _ inside.0 answer
            ∙ (done ∙ rw (append_assoc, take-append-drop m xs)),
      )

  between_none : (to : ℤ) (xs : List A) → ltb_ℤ from to ≡ false → between time from to xs ≡ []
  between_none to xs h = empty (between time from to xs) (between-All time from to xs)
    where
      empty : (ys : List A) → All (λ y. (from <ℤ time y) × (time y <ℤ to)) ys → ys ≡ []
      empty [] _ = refl
      empty (y ∷ ys) ((low, high), _) = ground arith

  -- A run of the loop with fuel for the history gathers the range, newest first.
  pub fetch_pages_all :
      (fuel : ℕ) (to : ℤ)
      → length history ≤ fuel
      → Downloads
          (record { ret_val = []; written = [] })
          (between time from to history)
          (fetch_pages time emit from page fuel to)
  unfolding fetch_pages
  fetch_pages_all fuel to h =
      let empty : Pages A = record { ret_val = []; written = [] } in
      elim (Bool-cases (ltb_ℤ from to)) [
        | inl t ↦
            rw (t, serves.answer to)
              (page_loop_all fuel (serves.size to) empty to (between time from to history) refl
                (omega (arith, length-between-le time from to history)) (serves.size_pos to))
        | inr f ↦ rw (f, between_none to history f) ([], refl)
      ]

-- Let the exchange hold a history of funding rates, strictly newest first, and serve its pages as
-- documented, of any size above 0. Then `getFundingRates` returns within as many rounds as the
-- history is long, and its result is each rate that is later than `from` and earlier than `to`,
-- once, oldest first.
pub get_funding_rates_all :
    {R : Type 0} (funding_time : R → ℤ) (from to : ℤ) (page : ℤ → Result (List R))
    (history : List R) (fuel : ℕ)
    → IsDescending funding_time history
    → Serves funding_time history from page
    → length history ≤ fuel
    → get_funding_rates funding_time page fuel from to
      ≡ returned (reverse (between funding_time from to history))
unfolding get_funding_rates
get_funding_rates_all funding_time from to page history fuel sorted serves h =
    let (w, e) =
      fetch_pages_all funding_time (λ _ _. []) from page history sorted serves fuel to h in
    rw e

-- Let the exchange hold a history of candles, strictly newest first, and serve its pages as
-- documented, of any size above 0. Then `getHistoricalPrices` returns within as many rounds as the
-- history is long, with a writer and without, and its result is each candle that is later than `from`
-- and earlier than `to`, once, oldest first, but for the oldest one if that is not confirmed.
pub get_historical_prices_all :
    {D : Type 0} (has_writer : Bool) (from to : ℤ) (page : ℤ → Result (List (Candle D)))
    (history : List (Candle D)) (fuel : ℕ)
    → IsDescending (λ c. c.ts) history
    → Serves (λ c. c.ts) history from page
    → length history ≤ fuel
    → (get_historical_prices page has_writer fuel from to).1
      ≡ returned (reverse (drop_invalid (between (λ c. c.ts) from to history)))
unfolding get_historical_prices
get_historical_prices_all has_writer from to page history fuel sorted serves h =
    let (w, e) =
      fetch_pages_all (λ c. c.ts) (candle_batch has_writer) from page history sorted serves fuel to
        h in
    rw e
