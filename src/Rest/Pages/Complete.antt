-- ===== src/Rest/Pages/Complete.antt =====
-- A download of candles from an exchange that keeps to its documents, from the requests to the history.
use okx_cpp_api.Prelude.{
  ℕ, ◌≤◌, ◌≡◌, refl, sym, ap, ◌∙◌, inl, inr, Bool, false, List, [], ◌∷◌, ◌++◌, reverse,
  if◌then◌else◌, Bool-cases, length, back, pop_back, All, Bytes,
}
use okx_cpp_api.Prelude.Int.{ℤ, minus_one, zero_ℤ, ◌≤ℤ◌, eqb_ℤ}
use mathlib.Core.List.{reverse-cons}
use okx_cpp_api.Result.{Result}
use okx_cpp_api.Enums.{BarSize}
use okx_cpp_api.Http.{Network, Signer}
use okx_cpp_api.Models.{Candle}
use okx_cpp_api.RateLimiter.{kline_limiter}
use okx_cpp_api.RateLimiter.Window.{IsSpaced}
use okx_cpp_api.History.{returned, candle_parameters, drop_invalid}
use okx_cpp_api.History.Server.{IsDescending, between}
use okx_cpp_api.History.Complete.{get_historical_prices_all}
use okx_cpp_api.Rest.{RestClient, Reading}
use okx_cpp_api.Rest.Pages.{download_candles}
use okx_cpp_api.Rest.Pages.Limited.{page, download_candles-IsSpaced}
use okx_cpp_api.Rest.Pages.Exchange.{Answers, Answers-Serves}

-- Candles, oldest first, without the oldest one if that is not confirmed.
pub without_unconfirmed : {D : Type 0} → List (Candle D) → List (Candle D)
without_unconfirmed [] = []
without_unconfirmed (c ∷ cs) = if c.confirm then c ∷ cs else cs

last_of :
    {A : Type 0} (x : A) (xs : List A) → reverse (x ∷ xs) ≡ back x xs ∷ reverse (pop_back (x ∷ xs))
last_of x [] = refl
last_of x (y ∷ ys) =
    reverse-cons x (y ∷ ys)
    ∙ (ap (◌++ x ∷ []) (last_of y ys)
        ∙ sym (ap (back y ys ∷◌) (reverse-cons x (pop_back (y ∷ ys)))))

without_unconfirmed-reverse :
    {D : Type 0} (cs : List (Candle D))
    → reverse (drop_invalid cs) ≡ without_unconfirmed (reverse cs)
unfolding drop_invalid without_unconfirmed
without_unconfirmed-reverse [] = refl
without_unconfirmed-reverse (c ∷ cs) = elim (Bool-cases (back c cs).confirm) [
  | inl h ↦ rw (drop_invalid, h) (rw (last_of c cs, without_unconfirmed, h) refl)
  | inr h ↦ rw (drop_invalid, h) (rw (last_of c cs, without_unconfirmed, h) refl)
]

module _ (network : Network) (version : Bytes) (signer : Signer) (stoi : Bytes → Result ℤ)
    {D : Type 0} (ts : Bytes) (read_candles : Bytes → Result (Reading (List (Candle D))))
    (to_string : ℤ → Bytes) (of_string : Bytes → ℤ) (inst_id : Bytes) (bar_size : BarSize)
    (from limit : ℤ) where
  -- Let the exchange hold a history of candles, strictly newest first and none before the time 0, and
  -- answer each request with the newest of those that its "before" and "after" ask for, of any number
  -- above 0. Then a download on a client that has made no limited request, with a `from` that is not -1,
  -- returns within as many rounds as the history is long, however long the requests and the sleeps take.
  -- It gives each candle that is later than `from` and earlier than `to`, once, oldest first, but for the
  -- oldest one if that is not confirmed, and as many as there are, whatever `limit` is; and no 2 seconds hold
  -- more than 20 of its requests.
  pub download_candles_whole :
      {I : Type 0} (timing : ℕ → ℕ × ℕ) (client : RestClient I) (start : ℕ) (has_writer : Bool)
      (fuel : ℕ) (to : ℤ) (history : List (Candle D))
      → client.kline_limiter ≡ kline_limiter
      → eqb_ℤ from minus_one ≡ false
      → ((n : ℤ) → of_string (to_string n) ≡ n)
      → IsDescending (λ c. c.ts) history
      → All (λ c. zero_ℤ ≤ℤ c.ts) history
      → Answers
          (λ c. c.ts)
          to_string
          of_string
          history
          (λ last. candle_parameters to_string inst_id bar_size from last limit)
          (page network version signer stoi ts read_candles to_string inst_id bar_size from limit
            client.http_session)
      → length history ≤ fuel
      → let (after, written, end) =
          download_candles network version signer stoi ts read_candles to_string timing inst_id
            bar_size from limit has_writer fuel
            (record { client = client; clock = start; log = [] })
            to in
        (end ≡ returned (without_unconfirmed (reverse (between (λ c. c.ts) from to history))))
        × IsSpaced 20 2000 after.log
  unfolding candle_parameters
  download_candles_whole timing client start has_writer fuel to history new has_from reads sorted
        not_early answers enough =
      let asked =
        page network version signer stoi ts read_candles to_string inst_id bar_size from limit
          client.http_session in
      let serves =
        Answers-Serves (λ c. c.ts) to_string of_string from limit _ has_from reads history not_early
          asked answers in
      let (same, spaced) =
        download_candles-IsSpaced network version signer stoi ts read_candles to_string inst_id
          bar_size from limit timing client start has_writer fuel to new in
      (
        ap (λ r. r.1) same
            ∙ (get_historical_prices_all has_writer from to asked history fuel sorted serves enough
                ∙ ap returned (without_unconfirmed-reverse (between (λ c. c.ts) from to history))),
        spaced,
      )
