-- ===== src/History/Examples.antt =====
-- Paged downloads of a small exchange. Decimals are numbers here.
use okx_cpp_api.Prelude.{
  take, ℕ, ◌≡◌, refl, Bool, true, false, List, [], ◌∷◌, ◌++◌, reverse, arith, codes,
}
use okx_cpp_api.Prelude.Int.{ℤ, pos, minus_one}
use okx_cpp_api.Result.{Result, ok}
use okx_cpp_api.Models.{Candle}
use okx_cpp_api.Enums.{_1H}
use okx_cpp_api.History.{
  page_loop, fetch_pages, returned, running, drop_invalid, get_historical_prices, get_funding_rates,
}
use okx_cpp_api.History.Server.{between, Serves}
use okx_cpp_api.History.Complete.{get_funding_rates_all, get_historical_prices_all}
use okx_cpp_api.History.Endless.{get_historical_prices_endless}
use okx_cpp_api.History.Newest.{get_historical_prices_newest}

abbrev candle_at : ℕ → Bool → Candle ℕ
candle_at t confirm = record {
  ts = pos t;
  o = 1;
  h = 1;
  l = 1;
  c = 1;
  vol = 1;
  vol_ccy = 1;
  vol_ccy_quote = 1;
  confirm = confirm;
}

-- Five candles; the newest is not finished.
abbrev candles : List (Candle ℕ)
candles =
    candle_at 50 false
    ∷ candle_at 40 true
    ∷ candle_at 30 true
    ∷ candle_at 20 true
    ∷ candle_at 10 true
    ∷ []

-- Two candles to a page.
abbrev candle_page : ℤ → Result (List (Candle ℕ))
candle_page to = ok (take 2 (between (λ c. c.ts) (pos 15) to candles))

candles-Serves : Serves (λ c. c.ts) candles (pos 15) candle_page
candles-Serves = record { size = λ _. 2; size_pos = λ _. omega arith; answer = λ _. refl }

candles_download : get_historical_prices candle_page true 5 (pos 15) (pos 60) ≡ (
  (candle_at 50 false ∷ candle_at 40 true ∷ []) ∷ (candle_at 30 true ∷ candle_at 20 true ∷ []) ∷ [],
  returned (candle_at 20 true ∷ candle_at 30 true ∷ candle_at 40 true ∷ candle_at 50 false ∷ []),
)
unfolding get_historical_prices fetch_pages page_loop between
candles_download = refl

candles_in_pages :
    (get_historical_prices candle_page true 5 (pos 15) (pos 60)).1
    ≡ returned (reverse (drop_invalid (between (λ c. c.ts) (pos 15) (pos 60) candles)))
candles_in_pages =
    get_historical_prices_all true (pos 15) (pos 60) candle_page candles 5 (omega arith)
      candles-Serves (omega arith)

get_historical_prices_newest_example :
    (older : List (Candle ℕ)) × ((get_historical_prices candle_page false 5 (pos 15) (pos 60)).1
      ≡ returned (older ++ (candle_at 50 false ∷ [])))
unfolding between
get_historical_prices_newest_example =
    get_historical_prices_newest false (pos 15) (pos 60) candle_page candles 5 (candle_at 50 false)
      (candle_at 40 true) (candle_at 30 true ∷ candle_at 20 true ∷ []) (omega arith) candles-Serves
      (omega arith) refl

-- An exchange that has one candle, and an empty text for every number.
get_historical_prices_endless_example :
    (get_historical_prices (λ t. ok (candle_at 10 true ∷ [])) false 7 minus_one (pos 60)).1
    ≡ running
get_historical_prices_endless_example =
    get_historical_prices_endless (λ _. []) (λ _. ok (candle_at 10 true ∷ []))
      (codes "BTC-USDT-SWAP") _1H (pos 60) minus_one false (candle_at 10 true) [] (omega arith) refl
      (omega arith) 7

-- Funding rates by their times alone.
abbrev rates : List ℤ
rates = pos 50 ∷ pos 40 ∷ pos 30 ∷ pos 20 ∷ []

abbrev rate_page : ℤ → Result (List ℤ)
rate_page to = ok (take 3 (between (λ t. t) (pos 20) to rates))

rates_in_pages :
    get_funding_rates (λ t. t) rate_page 4 (pos 20) (pos 50)
    ≡ returned (reverse (between (λ t. t) (pos 20) (pos 50) rates))
rates_in_pages =
    get_funding_rates_all (λ t. t) (pos 20) (pos 50) rate_page rates 4 (omega arith)
      (record { size = λ _. 3; size_pos = λ _. omega arith; answer = λ _. refl }) (omega arith)
