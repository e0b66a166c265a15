-- ===== src/Rest/Usage/Paced.antt =====
-- The limiters of a client that is in use.
use okx_cpp_api.Prelude.{
  subst, ℕ, suc, ◌+◌, ◌≡◌, refl, sym, Bool, true, false, ◌||◌, Option, some, List, [], ◌∷◌, arith,
  if◌then◌else◌, length, is_empty, Bytes, codes,
}
use okx_cpp_api.Result.{Result}
use okx_cpp_api.Http.{Network, Signer, insert_or_assign}
use okx_cpp_api.Models.{Candle}
use okx_cpp_api.Models.Archive.{MarketDataHistory}
use okx_cpp_api.RateLimiter.Window.{
  IsSpaced, IsLogged, IsLogged-later, wait-IsLogged, new_rate_limiter-IsLogged,
}
use okx_cpp_api.Rest.{
  err, ok, ℤ, RestClient, Reading, set_credentials, set_instruments, get_instruments, limited_get,
  get_and_read, new_rest_client,
}
use okx_cpp_api.Rest.Files.{get_market_data_history}
use okx_cpp_api.Rest.Usage.{
  Call, credentials, instruments, ask_instruments, ask_candles, ask_history, Usage, call, calls,
}

-- How many of the calls are requests for candles, and for lists of files.
pub candle_requests : {I : Type 0} → List (Call I) → ℕ
candle_requests [] = 0
candle_requests (ask_candles network since extra ts parameters ∷ cs) = suc (candle_requests cs)
candle_requests (_ ∷ cs) = candle_requests cs

pub history_requests : {I : Type 0} → List (Call I) → ℕ
history_requests [] = 0
history_requests (ask_history network since extra ts parameters ∷ cs) = suc (history_requests cs)
history_requests (_ ∷ cs) = history_requests cs

candle_requests_cons :
    {I : Type 0} (c : Call I) (cs : List (Call I))
    → candle_requests (c ∷ cs) ≡ candle_requests (c ∷ []) + candle_requests cs
unfolding candle_requests
candle_requests_cons (credentials key secret passphrase) cs = omega arith
candle_requests_cons (instruments is) cs = omega arith
candle_requests_cons (ask_instruments network ts inst_type force) cs = omega arith
candle_requests_cons (ask_candles network since extra ts parameters) cs = omega arith
candle_requests_cons (ask_history network since extra ts parameters) cs = omega arith

history_requests_cons :
    {I : Type 0} (c : Call I) (cs : List (Call I))
    → history_requests (c ∷ cs) ≡ history_requests (c ∷ []) + history_requests cs
unfolding history_requests
history_requests_cons (credentials key secret passphrase) cs = omega arith
history_requests_cons (instruments is) cs = omega arith
history_requests_cons (ask_instruments network ts inst_type force) cs = omega arith
history_requests_cons (ask_candles network since extra ts parameters) cs = omega arith
history_requests_cons (ask_history network since extra ts parameters) cs = omega arith

module _ {I D : Type 0} (version : Bytes) (signer : Signer) (stoi : Bytes → Result ℤ)
    (read_instruments : Bytes → Result (Reading (List I)))
    (read_candles : Bytes → Result (Reading (List (Candle D))))
    (read_history : Bytes → Result (Reading MarketDataHistory)) where
  abbrev pub Limited : Usage I → Type 0
  Limited u =
      IsLogged 20 2000 u.client.kline_limiter u.clock u.candle_log
      × IsLogged 1 1000 u.client.market_data_history_limiter u.clock u.history_log

  abbrev used : Usage I → Call I → Option (Usage I)
  used = call version signer stoi read_instruments read_candles read_history

  -- `getInstruments` leaves the limiters alone.
  get_instruments-limiters :
      (network : Network) (client : RestClient I) (ts inst_type : Bytes) (force : Bool)
      → let client' =
          (get_instruments network version signer stoi client ts read_instruments inst_type
            force).0 in
        (client'.kline_limiter ≡ client.kline_limiter)
        × (client'.market_data_history_limiter ≡ client.market_data_history_limiter)
  unfolding get_instruments set_instruments
  get_instruments-limiters network client ts inst_type force =
      asked (is_empty client.instruments || force) (
        get_and_read network version signer stoi client.http_session ts read_instruments
          (codes "/api/v5/public/instruments") (insert_or_assign (codes "instType") inst_type [])
          true)
    where
      asked :
          (b : Bool) (r : Result (List I))
          → let taken : RestClient I × Result (List I) = elim r [
            | ok is ↦ (set_instruments client is, ok is)
            | err e ↦ (client, err e)
          ] in
            let kept : RestClient I × Result (List I) = (client, ok client.instruments) in
            let client' = (if b then taken else kept).0 in
            (client'.kline_limiter ≡ client.kline_limiter)
            × (client'.market_data_history_limiter ≡ client.market_data_history_limiter)
      asked true (ok is) = (refl, refl)
      asked true (err e) = (refl, refl)
      asked false r = (refl, refl)

  -- A call returns and leaves the limiters in step with the logs.
  abbrev Returns : Usage I → Call I → Type 0
  Returns u c =
      (u' : Usage I) × (used u c ≡ some u')
      × Limited u'
      × (length u'.candle_log ≡ length u.candle_log + candle_requests (c ∷ []))
      × (length u'.history_log ≡ length u.history_log + history_requests (c ∷ []))

  call-Returns : (u : Usage I) (c : Call I) → Limited u → Returns u c
  unfolding call set_credentials set_instruments candle_requests history_requests limited_get
      get_market_data_history
  call-Returns u (credentials key secret passphrase) h = (_, refl, h, omega arith, omega arith)
  call-Returns u (instruments is) h = (_, refl, h, omega arith, omega arith)
  call-Returns u (ask_instruments network ts inst_type force) h =
      let (k, m) = get_instruments-limiters network u.client ts inst_type force in
      (
        _,
        refl,
        (
          subst (λ l. IsLogged 20 2000 l u.clock u.candle_log) (sym k) h.0,
          subst (λ l. IsLogged 1 1000 l u.clock u.history_log) (sym m) h.1,
        ),
        omega arith,
        omega arith,
      )
  call-Returns u (ask_candles network since extra ts parameters) (k, m) =
      let (l, t, y, late, k') =
        wait-IsLogged 20 2000 u.client.kline_limiter u.clock since extra u.candle_log (omega arith)
          k in
      (
        record u {
          client = record (u.client) { kline_limiter = l };
          clock = t;
          candle_log = t ∷ u.candle_log;
        },
        rw (call, limited_get, y) refl,
        (
          k',
          IsLogged-later 1 1000 u.client.market_data_history_limiter u.clock t u.history_log late m,
        ),
        omega arith,
        omega arith,
      )
  call-Returns u (ask_history network since extra ts parameters) (k, m) =
      let (l, t, y, late, m') =
        wait-IsLogged 1 1000 u.client.market_data_history_limiter u.clock since extra u.history_log
          (omega arith) m in
      (
        record u {
          client = record (u.client) { market_data_history_limiter = l };
          clock = t;
          history_log = t ∷ u.history_log;
        },
        rw (call, get_market_data_history, y) refl,
        (IsLogged-later 20 2000 u.client.kline_limiter u.clock t u.candle_log late k, m'),
        omega arith,
        omega arith,
      )

  abbrev pub used_all : Usage I → List (Call I) → Option (Usage I)
  used_all = calls version signer stoi read_instruments read_candles read_history

  pub calls-Limited :
      (cs : List (Call I)) (u : Usage I)
      → Limited u
      → (u' : Usage I) × (used_all u cs ≡ some u')
        × Limited u'
        × (length u'.candle_log ≡ length u.candle_log + candle_requests cs)
        × (length u'.history_log ≡ length u.history_log + history_requests cs)
  unfolding calls candle_requests history_requests
  calls-Limited [] u h = (u, refl, h, omega arith, omega arith)
  calls-Limited (c ∷ cs) u h =
      let (u1, y, h1, k1, m1) = call-Returns u c h in
      let (u2, z, h2, k2, m2) = calls-Limited cs u1 h1 in
      (
        u2,
        rw (calls, y) z,
        h2,
        omega (arith, k1, k2, candle_requests_cons c cs),
        omega (arith, m1, m2, history_requests_cons c cs),
      )

  pub new_usage-Limited :
      (api_key api_secret passphrase : Bytes) (start : ℕ)
      → Limited (record {
        client = new_rest_client api_key api_secret passphrase;
        clock = start;
        candle_log = [];
        history_log = [];
      })
  unfolding new_rest_client
  new_usage-Limited api_key api_secret passphrase start =
      (new_rate_limiter-IsLogged 20 2000 start, new_rate_limiter-IsLogged 1 1000 start)

  -- Whatever calls are made on a new client, in whatever order, with the credentials and the instruments
  -- changed between them and whatever the exchange answers: every call returns or throws, so neither limiter
  -- comes to undefined behaviour; every request for candles and for a list of files is in its log; no 2
  -- seconds hold more than 20 requests for candles, and no second more than one for a list of files.
  pub calls-IsSpaced :
      (api_key api_secret passphrase : Bytes) (start : ℕ) (cs : List (Call I))
      → (u : Usage I) × (used_all
            (record {
              client = new_rest_client api_key api_secret passphrase;
              clock = start;
              candle_log = [];
              history_log = [];
            })
            cs
          ≡ some u)
        × (length u.candle_log ≡ candle_requests cs)
        × IsSpaced 20 2000 u.candle_log
        × (length u.history_log ≡ history_requests cs)
        × IsSpaced 1 1000 u.history_log
  unfolding new_rest_client
  calls-IsSpaced api_key api_secret passphrase start cs =
      let (u, y, (k, m), n, o) =
        calls-Limited cs _ (new_usage-Limited api_key api_secret passphrase start) in
      (u, y, omega (arith, n), k.spaced, omega (arith, o), m.spaced)
