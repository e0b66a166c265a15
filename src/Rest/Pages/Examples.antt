-- ===== src/Rest/Pages/Examples.antt =====
-- Downloads of one page, and from an exchange that reads the parameters of a request.
use okx_cpp_api.Prelude.{
  drop, take, ℕ, zero, suc, ◌≡◌, refl, true, false, some, List, [], ◌∷◌, reverse, arith, Bytes,
  codes,
}
use okx_cpp_api.Prelude.Int.{minus_one, eqb_ℤ, negsuc, ℤ, pos}
use okx_cpp_api.Result.{Result, ok}
use okx_cpp_api.Enums.{BarSize, bar_size_name}
use okx_cpp_api.Http.{
  bytes_lt, insert_or_assign, append_parameters, create_query_str, request, get_request, http_get,
  Network,
}
use okx_cpp_api.Http.Query.{parameter}
use okx_cpp_api.Models.{Candle, FundingRate, new_funding_rate}
use okx_cpp_api.Models.Market.{new_candle}
use okx_cpp_api.RateLimiter.Window.{IsSpaced}
use okx_cpp_api.History.{
  funding_parameters, get_historical_prices, returned, candle_parameters, range_parameters,
}
use okx_cpp_api.History.Server.{between}
use okx_cpp_api.Rest.{check_response, handle_okx_response, get_and_read, Reading, new_rest_client}
use okx_cpp_api.Rest.Pages.{download_candles}
use okx_cpp_api.Rest.Pages.Echo.{
  no_signer, stoi, fresh, signed_text, signed_of, signed_of-signed_text, echo,
}
use okx_cpp_api.Rest.Pages.Limited.{page, download_candles-IsSpaced}
use okx_cpp_api.Rest.Pages.Exchange.{within, asked_items}
use okx_cpp_api.Rest.Pages.Complete.{without_unconfirmed, download_candles_whole}
use okx_cpp_api.Rest.Pages.Rates.{rates_page, download_rates}
use okx_cpp_api.Rest.Pages.Rates.Complete.{download_rates_whole}

abbrev answers : Network
answers host req = ok (record { result_int = 200; body = codes "0" })

abbrev candle : Candle ℕ
candle = record (new_candle 0) { ts = pos 5; confirm = true }

abbrev read_candles : Bytes → Result (Reading (List (Candle ℕ)))
read_candles body = ok (record { code = body; msg = []; value = candle ∷ [] })

abbrev no_text : ℤ → Bytes
no_text n = []

abbrev at_once : ℕ → ℕ × ℕ
at_once n = (0, 0)

-- The history begins with the one candle of the page.
download_candles-IsSpaced_example :
    let run =
      download_candles answers [] no_signer stoi [] read_candles no_text at_once
        (codes "BTC")
        BarSize._1m
        (pos 5)
        (pos 100)
        true
        3
        (record { client = fresh; clock = 7; log = [] })
        (pos 9) in
    ((run.1, run.2)
      ≡ get_historical_prices
          (page answers [] no_signer stoi [] read_candles no_text
            (codes "BTC")
            BarSize._1m
            (pos 5)
            (pos 100)
            fresh.http_session)
          true
          3
          (pos 5)
          (pos 9))
    × IsSpaced 20 2000 run.0.log
unfolding new_rest_client
download_candles-IsSpaced_example =
    download_candles-IsSpaced answers [] no_signer stoi [] read_candles no_text (codes "BTC")
      BarSize._1m (pos 5) (pos 100) at_once fresh 7 true 3 (pos 9) refl

-- Its candles are read from the text behind "after=" in the target.
abbrev served : List (Candle ℕ)
served =
    record (new_candle 0) { ts = pos 8; confirm = true }
    ∷ record (new_candle 0) { ts = pos 7; confirm = true }
    ∷ []

abbrev read_served : Bytes → Result (Reading (List (Candle ℕ)))
read_served target = ok (record {
  code = codes "0";
  msg = [];
  value = take 1 (within (λ c. c.ts) (some (pos 5)) (some (signed_of (drop 37 target))) served);
})

served_answer :
    (to : ℤ)
    → page echo [] no_signer stoi [] read_served signed_text
        (codes "BTC")
        BarSize._1m
        (pos 5)
        (pos 100)
        fresh.http_session
        to
      ≡ ok (
          take 1 (
            asked_items
              (λ c. c.ts)
              signed_text
              signed_of
              (candle_parameters signed_text (codes "BTC") BarSize._1m (pos 5) to (pos 100))
              served))
unfolding get_and_read http_get get_request request create_query_str append_parameters
    handle_okx_response check_response candle_parameters range_parameters insert_or_assign within
    asked_items parameter new_rest_client bar_size_name bytes_lt
served_answer (pos n) =
    let h : eqb_ℤ (pos n) minus_one ≡ false = ground arith in
    rw (candle_parameters, range_parameters, h) refl
served_answer (negsuc zero) = refl
served_answer (negsuc (suc n)) =
    let h : eqb_ℤ (negsuc (suc n)) minus_one ≡ false = ground arith in
    rw (candle_parameters, range_parameters, h) refl

download_candles_whole_example :
    let (after, written, end) =
      download_candles echo [] no_signer stoi [] read_served signed_text at_once
        (codes "BTC")
        BarSize._1m
        (pos 5)
        (pos 100)
        true
        2
        (record { client = fresh; clock = 7; log = [] })
        (pos 9) in
    (end ≡ returned (without_unconfirmed (reverse (between (λ c. c.ts) (pos 5) (pos 9) served))))
    × IsSpaced 20 2000 after.log
unfolding new_rest_client
download_candles_whole_example =
    download_candles_whole echo [] no_signer stoi [] read_served signed_text signed_of (codes "BTC")
      BarSize._1m (pos 5) (pos 100) at_once fresh 7 true 2 (pos 9) served refl refl
      signed_of-signed_text ((omega arith, tt), (tt, tt)) (omega arith, (omega arith, tt))
      (record { size = λ to. 1; size_pos = λ to. omega arith; answer = served_answer })
      (omega arith)

abbrev rate_at : ℕ → FundingRate Bytes ℕ
rate_at n = record (new_funding_rate [] 0) { funding_time = pos n }

abbrev served_rates : List (FundingRate Bytes ℕ)
served_rates = rate_at 8 ∷ rate_at 7 ∷ rate_at 6 ∷ []

abbrev read_rates : Bytes → Result (Reading (List (FundingRate Bytes ℕ)))
read_rates target = ok (record {
  code = codes "0";
  msg = [];
  value = take 2 (
      within (λ r. r.funding_time) (some (pos 5)) (some (signed_of (drop 42 target))) served_rates);
})

rates_answer :
    (to : ℤ)
    → rates_page echo [] no_signer stoi fresh [] read_rates signed_text
        (codes "BTC")
        (pos 5)
        minus_one
        to
      ≡ ok (
          take 2 (
            asked_items
              (λ r. r.funding_time)
              signed_text
              signed_of
              (funding_parameters signed_text (codes "BTC") (pos 5) to minus_one)
              served_rates))
unfolding rates_page get_and_read http_get get_request request create_query_str append_parameters
    handle_okx_response check_response funding_parameters range_parameters insert_or_assign within
    asked_items parameter bytes_lt
rates_answer (pos n) =
    let h : eqb_ℤ (pos n) minus_one ≡ false = ground arith in
    rw (rates_page, funding_parameters, range_parameters, h) refl
rates_answer (negsuc zero) = refl
rates_answer (negsuc (suc n)) =
    let h : eqb_ℤ (negsuc (suc n)) minus_one ≡ false = ground arith in
    rw (rates_page, funding_parameters, range_parameters, h) refl

download_rates_whole_example :
    download_rates echo [] no_signer stoi fresh [] read_rates signed_text
      (codes "BTC")
      (pos 5)
      minus_one
      3
      (pos 9)
    ≡ returned (reverse (between (λ r. r.funding_time) (pos 5) (pos 9) served_rates))
download_rates_whole_example =
    download_rates_whole echo [] no_signer stoi fresh [] read_rates signed_text signed_of
      (codes "BTC") (pos 5) minus_one 3 (pos 9) served_rates refl signed_of-signed_text
      ((omega arith, (omega arith, tt)), ((omega arith, tt), (tt, tt)))
      (omega arith, (omega arith, (omega arith, tt)))
      (record { size = λ to. 2; size_pos = λ to. omega arith; answer = rates_answer }) (omega arith)
