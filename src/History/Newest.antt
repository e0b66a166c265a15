-- ===== src/History/Newest.antt =====
-- Which candle the check for an unfinished one looks at: the list is still newest first there, so
-- it is the oldest candle, and the one that may be unfinished, the newest, stays.
use okx_cpp_api.Prelude.{
  ℕ, ◌≤◌, ◌≡◌, ap, ◌∙◌, inl, inr, Bool, List, [], ◌∷◌, ◌++◌, reverse, Bool-cases, length, back,
  pop_back,
}
use okx_cpp_api.Prelude.Int.{ℤ}
use okx_cpp_api.Result.{Result}
use okx_cpp_api.Models.{Candle}
use okx_cpp_api.History.{returned, drop_invalid, get_historical_prices}
use okx_cpp_api.History.Server.{IsDescending, between, Serves}
use okx_cpp_api.History.Complete.{get_historical_prices_all}
use mathlib.Core.List.{reverse-cons}

drop_invalid_two :
    {D : Type 0} (x y : Candle D) (ys : List (Candle D))
    → (zs : List (Candle D)) × (drop_invalid (x ∷ y ∷ ys) ≡ x ∷ zs)
unfolding drop_invalid
drop_invalid_two x y ys = elim (Bool-cases (back y ys).confirm) [
  | inl c ↦ (y ∷ ys, rw c)
  | inr c ↦ (pop_back (y ∷ ys), rw c)
]

-- Let the exchange hold a history of candles, strictly newest first, and serve its pages as
-- documented, and let the fuel be the length of the history or more. If the range holds two candles
-- or more, the newest candle of the range is the last one that `getHistoricalPrices` returns,
-- confirmed or not.
pub get_historical_prices_newest :
    {D : Type 0} (has_writer : Bool) (from to : ℤ) (page : ℤ → Result (List (Candle D)))
    (history : List (Candle D)) (fuel : ℕ) (newest y : Candle D) (ys : List (Candle D))
    → IsDescending (λ c. c.ts) history
    → Serves (λ c. c.ts) history from page
    → length history ≤ fuel
    → between (λ c. c.ts) from to history ≡ newest ∷ y ∷ ys
    → (older : List (Candle D)) × ((get_historical_prices page has_writer fuel from to).1
        ≡ returned (older ++ (newest ∷ [])))
get_historical_prices_newest has_writer from to page history fuel newest y ys sorted serves h e =
    let (zs, kept) = drop_invalid_two newest y ys in
    (
      reverse zs,
      get_historical_prices_all has_writer from to page history fuel sorted serves h
          ∙ (ap (λ r. returned (reverse (drop_invalid r))) e
              ∙ (ap (λ r. returned (reverse r)) kept ∙ ap returned (reverse-cons newest zs))),
    )
