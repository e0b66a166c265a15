-- ===== src/Rest/Pages/Limited.antt =====
-- A download of candles is that of the loop without a limiter, and keeps to the limit.
use okx_cpp_api.Prelude.{
  subst, ℕ, zero, suc, ◌+◌, ◌≡◌, refl, sym, ap, Bool, true, false, some, List, [], ◌∷◌, ◌++◌,
  reverse, arith, if◌then◌else◌, length, back, Bytes, codes,
}
use okx_cpp_api.Prelude.Int.{ℤ, ltb_ℤ}
use okx_cpp_api.Result.{Result, ok, err}
use okx_cpp_api.Enums.{BarSize}
use okx_cpp_api.Http.{Network, Signer, HttpSession}
use okx_cpp_api.Models.{Candle}
use okx_cpp_api.RateLimiter.{RateLimiter, wait, kline_limiter}
use okx_cpp_api.RateLimiter.Window.{IsSpaced, IsLogged, wait-IsLogged, new_rate_limiter-IsLogged}
use okx_cpp_api.History.{
  Outcome, returned, thrown, Pages, page_loop, fetch_pages, finish, candle_parameters, candle_batch,
  drop_invalid, get_historical_prices,
}
use okx_cpp_api.Rest.{RestClient, Reading, get_and_read, limited_get}
use okx_cpp_api.Rest.Pages.{Download, page_at, download_loop, download_pages, download_candles}

abbrev no_pages : {D : Type 0} → Pages (Candle D)
no_pages = record { ret_val = []; written = [] }

module _ (network : Network) (version : Bytes) (signer : Signer) (stoi : Bytes → Result ℤ)
    {D : Type 0} (ts : Bytes) (read_candles : Bytes → Result (Reading (List (Candle D))))
    (to_string : ℤ → Bytes) (inst_id : Bytes) (bar_size : BarSize) (from limit : ℤ) where
  -- A page without the limiter, over the session that the client holds.
  abbrev pub page : HttpSession → ℤ → Result (List (Candle D))
  page session to =
      get_and_read network version signer stoi session ts read_candles
        (codes "/api/v5/market/history-candles")
        (candle_parameters to_string inst_id bar_size from to limit) true

  abbrev plain_loop :
      Bool
      → HttpSession
      → ℕ
      → Pages (Candle D)
      → List (Candle D)
      → Pages (Candle D) × Outcome (Unit {0})
  plain_loop has_writer session =
      page_loop (λ c. c.ts) (candle_batch has_writer) from (page session)

  module _ {I : Type 0} (timing : ℕ → ℕ × ℕ) where
    -- The limiter of the client is that of the log, and the session is still the same.
    record IsPaced (session : HttpSession) (d : Download I) : Type 0 where
      logged : IsLogged 20 2000 d.client.kline_limiter d.clock d.log
      session_eq : d.client.http_session ≡ session

    abbrev asked : Download I → ℤ → Download I × Result (List (Candle D))
    asked =
        page_at network version signer stoi ts read_candles to_string timing inst_id bar_size from
          limit

    abbrev waited : Download I → RateLimiter → ℕ → Download I
    waited d l t = record {
      client = record (d.client) { kline_limiter = l };
      clock = t;
      log = t ∷ d.log;
    }

    page_at-waits :
        (d : Download I) (to : ℤ) (l : RateLimiter) (t : ℕ)
        → wait d.client.kline_limiter
            (d.clock + (timing (length d.log)).0)
            (λ sleep. d.clock + (timing (length d.log)).0 + sleep + (timing (length d.log)).1)
          ≡ some (l, t)
        → asked d to ≡ (waited d l t, page d.client.http_session to)
    unfolding limited_get page_at
    page_at-waits d to l t y = rw (page_at, limited_get, y) refl

    page_at-IsPaced :
        (session : HttpSession) (d : Download I) (to : ℤ)
        → IsPaced session d
        → IsPaced session (asked d to).0 × ((asked d to).1 ≡ page session to)
    page_at-IsPaced session d to i =
        let (l, t, y, _, j) =
          wait-IsLogged 20 2000 d.client.kline_limiter d.clock (timing (length d.log)).0
            (timing (length d.log)).1 d.log (omega arith) i.logged in
        let after : IsPaced session (waited d l t)
            × (page d.client.http_session to ≡ page session to) =
          (record { logged = j; session_eq = i.session_eq }, ap (λ s. page s to) i.session_eq) in
        subst (λ r. IsPaced session r.0 × (r.1 ≡ page session to)) (sym (page_at-waits d to l t y))
          after

    -- A run on the client that ends as the loop without a limiter does.
    abbrev Follows :
        HttpSession
        → Download I × Pages (Candle D) × Outcome (Unit {0})
        → Pages (Candle D) × Outcome (Unit {0})
        → Type 0
    Follows session run plain = IsPaced session run.0 × ((run.1, run.2) ≡ plain)

    Follows-if :
        (session : HttpSession) (b : Bool)
        (x y : Download I × Pages (Candle D) × Outcome (Unit {0}))
        (p q : Pages (Candle D) × Outcome (Unit {0}))
        → Follows session x p
        → Follows session y q
        → Follows session (if b then x else y) (if b then p else q)
    Follows-if session true x y p q h k = h
    Follows-if session false x y p q h k = k

    module _ (has_writer : Bool) where
      abbrev loop :
          ℕ
          → Download I
          → Pages (Candle D)
          → List (Candle D)
          → Download I × Pages (Candle D) × Outcome (Unit {0})
      loop =
          download_loop network version signer stoi ts read_candles to_string timing inst_id
            bar_size from limit has_writer

      -- A page that is asked for, and what follows it.
      asked-Follows :
          (session : HttpSession) (fuel : ℕ) (d : Download I) (s : Pages (Candle D)) (to : ℤ)
          → IsPaced session d
          → ((d' : Download I) (next : List (Candle D))
              → IsPaced session d'
              → Follows session (loop fuel d' s next) (plain_loop has_writer session fuel s next))
          → Follows session
              (elim ((asked d to).1) [
                | ok next ↦ loop fuel ((asked d to).0) s next
                | err e ↦ ((asked d to).0, s, thrown e)
              ])
              (elim (page session to) [
                | ok next ↦ plain_loop has_writer session fuel s next
                | err e ↦ (s, thrown e)
              ])
      asked-Follows session fuel d s to i ih =
          let (i', q) = page_at-IsPaced session d to i in
          go ((asked d to).0) ((asked d to).1) (page session to) i' q
        where
          go :
              (d' : Download I) (r r' : Result (List (Candle D)))
              → IsPaced session d'
              → r ≡ r'
              → Follows session
                  (elim r [ ok next ↦ loop fuel d' s next | err e ↦ (d', s, thrown e) ])
                  (elim r' [
                    | ok next ↦ plain_loop has_writer session fuel s next
                    | err e ↦ (s, thrown e)
                  ])
          go d' (ok next) r' j e = rw (sym e) (ih d' next j)
          go d' (err x) r' j e = rw (sym e) (j, refl)

      loop-Follows :
          (session : HttpSession) (fuel : ℕ) (d : Download I) (s : Pages (Candle D))
          (xs : List (Candle D))
          → IsPaced session d
          → Follows session (loop fuel d s xs) (plain_loop has_writer session fuel s xs)
      unfolding download_loop page_loop
      loop-Follows session fuel d s [] i = (i, refl)
      loop-Follows session zero d s (x ∷ xs) i = (i, refl)
      loop-Follows session (suc fuel) d s (x ∷ xs) i =
          let s' : Pages (Candle D) = record {
            ret_val = s.ret_val ++ (x ∷ xs);
            written = s.written ++ candle_batch has_writer x xs;
          } in
          Follows-if session (ltb_ℤ from (back x xs).ts) _ (d, s', returned tt) _ (s', returned tt)
            (asked-Follows session fuel d s' (back x xs).ts i
              (λ d' next j. loop-Follows session fuel d' s' next j))
            (i, refl)

      pages-Follows :
          (session : HttpSession) (fuel : ℕ) (d : Download I) (to : ℤ)
          → IsPaced session d
          → Follows session
              (download_pages network version signer stoi ts read_candles to_string timing inst_id
                bar_size from limit has_writer fuel d to)
              (fetch_pages (λ c. c.ts) (candle_batch has_writer) from (page session) fuel to)
      unfolding download_pages fetch_pages
      pages-Follows session fuel d to i =
          Follows-if session (ltb_ℤ from to) _ (d, no_pages, returned tt) _ (no_pages, returned tt)
            (asked-Follows session fuel d no_pages to i
              (λ d' next j. loop-Follows session fuel d' no_pages next j))
            (i, refl)

    -- On a client that has made no limited request, however long the requests and the sleeps take, the
    -- download through the limiter hands to the writer and gives, or throws, exactly what the download of
    -- the same pages without the limiter does, so the limiter is never undefined; and no 2 seconds hold
    -- more than 20 of its requests: each comes more than 2 seconds after every request that is 20 or more
    -- before it.
    pub download_candles-IsSpaced :
        (client : RestClient I) (start : ℕ) (has_writer : Bool) (fuel : ℕ) (to : ℤ)
        → client.kline_limiter ≡ kline_limiter
        → let run =
            download_candles network version signer stoi ts read_candles to_string timing inst_id
              bar_size from limit has_writer fuel
              (record { client = client; clock = start; log = [] })
              to in
          ((run.1, run.2)
            ≡ get_historical_prices (page client.http_session) has_writer fuel from to)
          × IsSpaced 20 2000 run.0.log
    unfolding download_candles get_historical_prices
    download_candles-IsSpaced client start has_writer fuel to new =
        let fresh : IsPaced client.http_session
            (record { client = client; clock = start; log = [] }) =
          record {
            logged =
                subst (λ l. IsLogged 20 2000 l start []) (sym new)
                  (new_rate_limiter-IsLogged 20 2000 start);
            session_eq = refl;
          } in
        let (i, e) = pages-Follows has_writer client.http_session fuel _ to fresh in
        (
          ap (λ r. (r.0.written, finish (λ ret_val. reverse (drop_invalid ret_val)) r)) e,
          i.logged.spaced,
        )
