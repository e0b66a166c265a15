-- ===== src/History.antt =====
-- The paged downloads of src/okx_rest_client.cpp: the parameters of a page, and the loops of
-- `RESTClient::getHistoricalPrices` and `RESTClient::getFundingRates`. The exchange sends a page
-- newest first; a page is asked for by the time before which it ends.
pub mod Server
pub mod Complete
pub mod Endless
pub mod Newest
mod Examples
use okx_cpp_api.Prelude.{
  ℕ, zero, suc, ◌+◌, Bool, not, List, [], ◌∷◌, ◌++◌, reverse, if◌then◌else◌, back, pop_back, Bytes,
  codes,
}
use okx_cpp_api.Prelude.Int.{ℤ, minus_one, ltb_ℤ, eqb_ℤ}
use okx_cpp_api.Result.{Result, ok, err, Error}
use okx_cpp_api.Models.{Candle}
use okx_cpp_api.Http.{Parameters, insert_or_assign}
use okx_cpp_api.Enums.{BarSize, bar_size_name}

-- The end of a loop: its value, an exception, or still in the loop when the fuel is spent.
pub data Outcome (A : Type 0) : Type 0 where
  returned : A → Outcome A
  thrown : Error → Outcome A
  running : Outcome A

-- The variables of a loop: `retVal`, and the pages that `writer` was called with.
pub record Pages (A : Type 0) : Type 0 where
  pub ret_val : List A
  pub written : List (List A)

-- The two loops are one: `time` is the time stamp of an item, `emit` gives what the body hands to
-- the writer for the page `x ∷ xs`, and `page last` is the request for the next page.
module _ {A : Type 0} (time : A → ℤ) (emit : A → List A → List (List A)) (from : ℤ)
    (page : ℤ → Result (List A)) where
  abbrev take_page : Pages A → A → List A → Pages A
  take_page s x xs = record { ret_val = s.ret_val ++ (x ∷ xs); written = s.written ++ emit x xs }

  -- `while (!candles.empty())`.
  unfoldable pub page_loop : ℕ → Pages A → List A → Pages A × Outcome (Unit {0})
  page_loop fuel s [] = (s, returned tt)
  page_loop zero s (x ∷ xs) = (s, running)
  page_loop (suc fuel) s (x ∷ xs) =
      let last_to_time = time (back x xs) in
      let s' = take_page s x xs in
      let rest : Pages A × Outcome (Unit {0}) = elim (page last_to_time) [
        | ok next ↦ page_loop fuel s' next
        | err e ↦ (s', thrown e)
      ] in
      if ltb_ℤ from last_to_time then rest else (s', returned tt)

  -- The first page, if `from < to`, and the loop.
  unfoldable pub fetch_pages : ℕ → ℤ → Pages A × Outcome (Unit {0})
  fetch_pages fuel to =
      let empty : Pages A = record { ret_val = []; written = [] } in
      if ltb_ℤ from to
      then elim (page to) [ ok first ↦ page_loop fuel empty first | err e ↦ (empty, thrown e) ]
      else (empty, returned tt)

-- `std::to_string` of an integer is the standard library's; its text enters as `to_string`.
module _ (to_string : ℤ → Bytes) where
  -- What `P::getHistoricalPrices` and `P::getFundingRates` add for `from`, `to` and `limit`.
  unfoldable pub range_parameters : ℤ → ℤ → ℤ → Parameters → Parameters
  range_parameters from to limit parameters =
      let with_after =
        if eqb_ℤ from minus_one
        then parameters
        else insert_or_assign (codes "after") (to_string to) parameters in
      let with_before =
        if eqb_ℤ to minus_one
        then with_after
        else insert_or_assign (codes "before") (to_string from) with_after in
      if eqb_ℤ limit minus_one
      then with_before
      else insert_or_assign (codes "limit") (to_string limit) with_before

  -- The parameters of `P::getHistoricalPrices`.
  unfoldable pub candle_parameters : Bytes → BarSize → ℤ → ℤ → ℤ → Parameters
  unfolding range_parameters
  candle_parameters inst_id bar_size from to limit = range_parameters from to limit (
      insert_or_assign (codes "bar") (bar_size_name bar_size)
        (insert_or_assign (codes "instId") inst_id []))

  -- The parameters of `P::getFundingRates`.
  unfoldable pub funding_parameters : Bytes → ℤ → ℤ → ℤ → Parameters
  unfolding range_parameters
  funding_parameters inst_id from to limit =
      range_parameters from to limit (insert_or_assign (codes "instId") inst_id [])

-- What the body of the loop of `getHistoricalPrices` hands to its writer, if there is one.
unfoldable pub candle_batch :
    {D : Type 0} → Bool → Candle D → List (Candle D) → List (List (Candle D))
candle_batch has_writer x xs =
    let batch = if not (back x xs).confirm then pop_back (x ∷ xs) else x ∷ xs in
    if has_writer then batch ∷ [] else []

-- "Remove last candle if it is not valid".
unfoldable pub drop_invalid : {D : Type 0} → List (Candle D) → List (Candle D)
drop_invalid [] = []
drop_invalid (x ∷ xs) = if not (back x xs).confirm then pop_back (x ∷ xs) else x ∷ xs

abbrev pub finish : {A B : Type 0} → (List A → B) → Pages A × Outcome (Unit {0}) → Outcome B
finish f (s, returned _) = returned (f s.ret_val)
finish f (s, thrown e) = thrown e
finish f (s, running) = running

-- `RESTClient::getHistoricalPrices`, where `page to` is `P::getHistoricalPrices` for the range up to
-- `to`; with what the writer was called with.
unfoldable pub get_historical_prices :
    {D : Type 0}
    → (ℤ → Result (List (Candle D)))
    → Bool
    → ℕ
    → ℤ
    → ℤ
    → List (List (Candle D)) × Outcome (List (Candle D))
unfolding candle_batch drop_invalid
get_historical_prices page has_writer fuel from to =
    let run = fetch_pages (λ c. c.ts) (candle_batch has_writer) from page fuel to in
    (run.0.written, finish (λ ret_val. reverse (drop_invalid ret_val)) run)

-- `RESTClient::getFundingRates`, where `funding_time` is the field `fundingTime`, and `page to` is
-- `P::getFundingRates` for the range up to `to`.
unfoldable pub get_funding_rates :
    {R : Type 0} → (R → ℤ) → (ℤ → Result (List R)) → ℕ → ℤ → ℤ → Outcome (List R)
get_funding_rates funding_time page fuel from to =
    finish reverse (fetch_pages funding_time (λ _ _. []) from page fuel to)
