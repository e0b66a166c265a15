-- ===== src/Rest/Usage/Kept.antt =====
-- The instruments of a client that is in use.
use okx_cpp_api.Prelude.{
  ℕ, ◌+◌, ◌≡◌, refl, sym, ap, ◌∙◌, inl, inr, Bool, false, Option, some, List, [], ◌∷◌, Option-cases,
  is_empty, All, Bytes,
}
use okx_cpp_api.Prelude.Int.{ℤ}
use okx_cpp_api.Result.{Result, ok}
use okx_cpp_api.Http.{Network, Signer}
use okx_cpp_api.Models.{Candle}
use okx_cpp_api.Models.Archive.{MarketDataHistory}
use mathlib.Core.Path.{subst}
use okx_cpp_api.RateLimiter.{wait}
use okx_cpp_api.Rest.{
  RestClient, Reading, set_credentials, get_instruments, limited_get, new_rest_client,
}
use okx_cpp_api.Rest.Files.{get_market_data_history}
use okx_cpp_api.Rest.Usage.{
  Call, credentials, instruments, ask_instruments, ask_candles, ask_history, Usage, call, calls,
}
use okx_cpp_api.Rest.Usage.Paced.{calls-Limited, Limited, new_usage-Limited}

-- A call that does not set the instruments from outside, nor forces the client to ask for them.
abbrev pub IsUnforced : {I : Type 0} → Call I → Type 0
IsUnforced (credentials key secret passphrase) = Unit
IsUnforced (instruments is) = ⊥
IsUnforced (ask_instruments network ts inst_type force) = force ≡ false
IsUnforced (ask_candles network since extra ts parameters) = Unit
IsUnforced (ask_history network since extra ts parameters) = Unit

module _ {I D : Type 0} (version : Bytes) (signer : Signer) (stoi : Bytes → Result ℤ)
    (read_instruments : Bytes → Result (Reading (List I)))
    (read_candles : Bytes → Result (Reading (List (Candle D))))
    (read_history : Bytes → Result (Reading MarketDataHistory)) where
  abbrev used : Usage I → Call I → Option (Usage I)
  used = call version signer stoi read_instruments read_candles read_history

  abbrev used_all : Usage I → List (Call I) → Option (Usage I)
  used_all = calls version signer stoi read_instruments read_candles read_history

  -- The client behind a call of `getInstruments`.
  abbrev asked : Network → RestClient I → Bytes → Bytes → Bool → RestClient I
  asked network client ts inst_type force =
      (get_instruments network version signer stoi client ts read_instruments inst_type force).0

  get_instruments-kept :
      (network : Network) (client : RestClient I) (ts inst_type : Bytes)
      → is_empty client.instruments ≡ false
      → get_instruments network version signer stoi client ts read_instruments inst_type false
        ≡ (client, ok client.instruments)
  unfolding get_instruments
  get_instruments-kept network client ts inst_type full = rw (get_instruments, full) refl

  get_instruments-given :
      (network : Network) (client : RestClient I) (ts inst_type : Bytes) (is : List I)
      → client.instruments ≡ is
      → is_empty is ≡ false
      → get_instruments network version signer stoi client ts read_instruments inst_type false
        ≡ (client, ok is)
  get_instruments-given network client ts inst_type is e full =
      get_instruments-kept network client ts inst_type (ap is_empty e ∙ full)
      ∙ ap (λ xs. (client, ok xs)) e

  call-kept :
      (u u' : Usage I) (c : Call I)
      → is_empty u.client.instruments ≡ false
      → IsUnforced c
      → used u c ≡ some u'
      → u'.client.instruments ≡ u.client.instruments
  unfolding call set_credentials limited_get get_market_data_history
  call-kept u u' (credentials key secret passphrase) full h y =
      let given : some (record u { client = set_credentials u.client key secret passphrase })
          ≡ some u' =
        y in
      let same : record u { client = set_credentials u.client key secret passphrase } ≡ u' = cc in
      ap (λ x. x.client.instruments) (sym same)
  call-kept u u' (instruments is) full h y = elim h [ ]
  call-kept u u' (ask_instruments network ts inst_type force) full h y =
      let given : some (record u { client = asked network u.client ts inst_type force }) ≡ some u' =
        y in
      let same : record u { client = asked network u.client ts inst_type force } ≡ u' = cc in
      ap (λ x. x.client.instruments) (sym same)
      ∙ (ap (λ b. (asked network u.client ts inst_type b).instruments) h
          ∙ ap (λ r. r.0.instruments) (get_instruments-kept network u.client ts inst_type full))
  call-kept u u' (ask_candles network since extra ts parameters) full h y =
      elim (Option-cases
        (wait u.client.kline_limiter (u.clock + since) (λ d. u.clock + since + d + extra))) [
          | inl n ↦ cc (rw (call, limited_get, n) at y)
          | inr ((l, t), n) ↦
              let given : some (record u {
                client = record (u.client) { kline_limiter = l };
                clock = t;
                candle_log = t ∷ u.candle_log;
              })
                  ≡ some u' =
                rw (call, limited_get, n) at y in
              let same : record u {
                client = record (u.client) { kline_limiter = l };
                clock = t;
                candle_log = t ∷ u.candle_log;
              }
                  ≡ u' =
                cc in
              ap (λ x. x.client.instruments) (sym same)
        ]
  call-kept u u' (ask_history network since extra ts parameters) full h y =
      elim (Option-cases (
        wait u.client.market_data_history_limiter (u.clock + since)
          (λ d. u.clock + since + d + extra))) [
            | inl n ↦ cc (rw (call, get_market_data_history, n) at y)
            | inr ((l, t), n) ↦
                let given : some (record u {
                  client = record (u.client) { market_data_history_limiter = l };
                  clock = t;
                  history_log = t ∷ u.history_log;
                })
                    ≡ some u' =
                  rw (call, get_market_data_history, n) at y in
                let same : record u {
                  client = record (u.client) { market_data_history_limiter = l };
                  clock = t;
                  history_log = t ∷ u.history_log;
                }
                    ≡ u' =
                  cc in
                ap (λ x. x.client.instruments) (sym same)
          ]

  calls-kept :
      (cs : List (Call I)) (u u' : Usage I)
      → is_empty u.client.instruments ≡ false
      → All IsUnforced cs
      → used_all u cs ≡ some u'
      → u'.client.instruments ≡ u.client.instruments
  unfolding calls
  calls-kept [] u u' full h y =
      let given : some u ≡ some u' = y in
      let same : u ≡ u' = cc in ap (λ x. x.client.instruments) (sym same)
  calls-kept (c ∷ cs) u u' full (h, hs) y = elim (Option-cases (used u c)) [
    | inl n ↦ cc (rw (calls, n) at y)
    | inr (u1, n) ↦
        let kept = call-kept u u1 c full h n in
        calls-kept cs u1 u' (ap is_empty kept ∙ full) hs (rw (calls, n) at y) ∙ kept
  ]

  -- Let a new client have come to instruments, at least one, by whatever calls. Then whatever calls are made on
  -- it, as long as the instruments are not set from outside and no call forces it to ask for them, each of
  -- them returns or throws, and `getInstruments` that is not forced gives the very same instruments, whatever
  -- the network would answer and whatever instrument type it asks for, also one that was never asked for.
  pub calls-keep-instruments :
      (api_key api_secret passphrase : Bytes) (start : ℕ) (before after : List (Call I))
      (u : Usage I)
      → used_all
          (record {
            client = new_rest_client api_key api_secret passphrase;
            clock = start;
            candle_log = [];
            history_log = [];
          })
          before
        ≡ some u
      → is_empty u.client.instruments ≡ false
      → All IsUnforced after
      → (u' : Usage I) × (used_all u after ≡ some u')
        × ((network : Network) (ts inst_type : Bytes)
            → get_instruments network version signer stoi u'.client ts read_instruments inst_type
                false
              ≡ (u'.client, ok u.client.instruments))
  calls-keep-instruments api_key api_secret passphrase start before after u y full unforced =
      let (v, z, limited, _, _) =
        calls-Limited version signer stoi read_instruments read_candles read_history before _ (
          new_usage-Limited version signer stoi read_instruments read_candles read_history api_key
            api_secret passphrase start) in
      let given : some v ≡ some u = sym z ∙ y in
      let same : v ≡ u = cc in
      let (u', w, _, _, _) =
        calls-Limited version signer stoi read_instruments read_candles read_history after u (
          subst (Limited version signer stoi read_instruments read_candles read_history) same
            limited) in
      let kept = calls-kept after u u' full unforced w in
      (
        u',
        w,
        λ network ts inst_type. get_instruments-given network u'.client ts inst_type _ kept full,
      )
