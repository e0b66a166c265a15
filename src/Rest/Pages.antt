-- ===== src/Rest/Pages.antt =====
-- `RESTClient::getHistoricalPrices` of src/okx_rest_client.cpp on a client: each page is asked for
-- by `limited_get`, which changes the limiter of the client.
pub mod Limited
pub mod Exchange
pub mod Complete
pub mod Echo
pub mod Rates
mod Examples
use okx_cpp_api.Prelude.{
  ℕ, zero, suc, ◌+◌, Bool, none, some, List, [], ◌∷◌, ◌++◌, reverse, if◌then◌else◌, length, back,
  Bytes,
}
use okx_cpp_api.Prelude.Int.{ℤ, ltb_ℤ}
use okx_cpp_api.Result.{Result, ok, err, undefined}
use okx_cpp_api.Enums.{BarSize}
use okx_cpp_api.Http.{Network, Signer}
use okx_cpp_api.Models.{Candle}
use okx_cpp_api.History.{
  Outcome, returned, thrown, running, Pages, finish, candle_parameters, candle_batch, drop_invalid,
}
use okx_cpp_api.Rest.{RestClient, Reading, limited_get}

-- A client in the midst of a download: the time of its last request, and the times of all its requests,
-- the newest first.
pub record Download (I : Type 0) : Type 0 where
  pub client : RestClient I
  pub clock : ℕ
  pub log : List ℕ

-- `timing n` is how long after the request before it the n-th one is asked for, and how much longer than
-- asked the sleep is that it may need.
module _ (network : Network) (version : Bytes) (signer : Signer) (stoi : Bytes → Result ℤ)
    {I D : Type 0} (ts : Bytes) (read_candles : Bytes → Result (Reading (List (Candle D))))
    (to_string : ℤ → Bytes) (timing : ℕ → ℕ × ℕ) (inst_id : Bytes) (bar_size : BarSize)
    (from limit : ℤ) where
  -- `P::getHistoricalPrices`.
  pub page_at : Download I → ℤ → Download I × Result (List (Candle D))
  page_at d to =
      let (since, extra) = timing (length d.log) in
      elim (limited_get network version signer stoi d.client (d.clock + since)
        (λ sleep. d.clock + since + sleep + extra) ts read_candles
        (candle_parameters to_string inst_id bar_size from to limit)) [
          | none ↦ (d, err undefined)
          | some (client, time, r) ↦
              (record { client = client; clock = time; log = time ∷ d.log }, r)
        ]

  -- `while (!candles.empty())`.
  pub download_loop :
      Bool
      → ℕ
      → Download I
      → Pages (Candle D)
      → List (Candle D)
      → Download I × Pages (Candle D) × Outcome (Unit {0})
  unfolding page_at
  download_loop has_writer fuel d s [] = (d, s, returned tt)
  download_loop has_writer zero d s (x ∷ xs) = (d, s, running)
  download_loop has_writer (suc fuel) d s (x ∷ xs) =
      let last_to_time = (back x xs).ts in
      let s' : Pages (Candle D) = record {
        ret_val = s.ret_val ++ (x ∷ xs);
        written = s.written ++ candle_batch has_writer x xs;
      } in
      let asked = page_at d last_to_time in
      let rest : Download I × Pages (Candle D) × Outcome (Unit {0}) = elim (asked.1) [
        | ok next ↦ download_loop has_writer fuel (asked.0) s' next
        | err e ↦ (asked.0, s', thrown e)
      ] in
      if ltb_ℤ from last_to_time then rest else (d, s', returned tt)

  -- The first page and the loop.
  pub download_pages :
      Bool → ℕ → Download I → ℤ → Download I × Pages (Candle D) × Outcome (Unit {0})
  unfolding download_loop
  download_pages has_writer fuel d to =
      let empty : Pages (Candle D) = record { ret_val = []; written = [] } in
      let asked = page_at d to in
      let first : Download I × Pages (Candle D) × Outcome (Unit {0}) = elim (asked.1) [
        | ok candles ↦ download_loop has_writer fuel (asked.0) empty candles
        | err e ↦ (asked.0, empty, thrown e)
      ] in
      if ltb_ℤ from to then first else (d, empty, returned tt)

  -- `getHistoricalPrices`: the client afterwards, what the writer was called with, and the end.
  pub download_candles :
      Bool → ℕ → Download I → ℤ → Download I × List (List (Candle D)) × Outcome (List (Candle D))
  unfolding download_pages
  download_candles has_writer fuel d to =
      let (after, s, end) = download_pages has_writer fuel d to in
      (after, s.written, finish (λ ret_val. reverse (drop_invalid ret_val)) (s, end))
