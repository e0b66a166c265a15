-- ===== src/Rest/Usage.antt =====
-- A client of src/okx_rest_client.cpp in use: its calls in any order, each of which may change its
-- credentials, its instruments or one of its limiters.
pub mod Paced
pub mod Kept
mod Examples
use okx_cpp_api.Prelude.{ℕ, ◌+◌, Bool, Option, none, some, List, [], ◌∷◌, Bytes}
use okx_cpp_api.Prelude.Int.{ℤ}
use okx_cpp_api.Result.{Result}
use okx_cpp_api.Http.{Network, Signer, Parameters}
use okx_cpp_api.Models.{Candle}
use okx_cpp_api.Models.Archive.{MarketDataHistory}
use okx_cpp_api.Rest.{
  RestClient, Reading, set_credentials, set_instruments, get_instruments, limited_get,
}
use okx_cpp_api.Rest.Files.{get_market_data_history}

-- The calls that change a client, or wait: `setCredentials`, `setInstruments`, `getInstruments`,
-- `P::getHistoricalPrices` and `getMarketDataHistory` with their parameters. `since` is the time since
-- the last request of either limiter, `extra` how much longer than asked a sleep is.
pub data Call (I : Type 0) : Type 0 where
  credentials : Bytes → Bytes → Bytes → Call I
  instruments : List I → Call I
  ask_instruments : Network → Bytes → Bytes → Bool → Call I
  ask_candles : Network → (since extra : ℕ) → Bytes → Parameters → Call I
  ask_history : Network → (since extra : ℕ) → Bytes → Parameters → Call I

-- The client, the time of the last request that waited for a limiter, and the requests that did, the
-- newest first.
pub record Usage (I : Type 0) : Type 0 where
  pub client : RestClient I
  pub clock : ℕ
  pub candle_log : List ℕ
  pub history_log : List ℕ

module _ {I D : Type 0} (version : Bytes) (signer : Signer) (stoi : Bytes → Result ℤ)
    (read_instruments : Bytes → Result (Reading (List I)))
    (read_candles : Bytes → Result (Reading (List (Candle D))))
    (read_history : Bytes → Result (Reading MarketDataHistory)) where
  -- What a call leaves; what it gives or throws is of no matter here. `none` is undefined behaviour.
  pub call : Usage I → Call I → Option (Usage I)
  call u (credentials key secret passphrase) =
      some (record u { client = set_credentials u.client key secret passphrase })
  call u (instruments is) = some (record u { client = set_instruments u.client is })
  call u (ask_instruments network ts inst_type force) = some (record u {
    client =
        (get_instruments network version signer stoi u.client ts read_instruments inst_type
          force).0;
  })
  call u (ask_candles network since extra ts parameters) =
      elim (limited_get network version signer stoi u.client (u.clock + since)
        (λ d. u.clock + since + d + extra) ts read_candles parameters) [
          | none ↦ none
          | some (client, time, r) ↦
              some (record u { client = client; clock = time; candle_log = time ∷ u.candle_log })
        ]
  call u (ask_history network since extra ts parameters) =
      elim (get_market_data_history network version signer stoi u.client (u.clock + since)
        (λ d. u.clock + since + d + extra) ts read_history parameters) [
          | none ↦ none
          | some (client, time, r) ↦
              some (record u { client = client; clock = time; history_log = time ∷ u.history_log })
        ]

  pub calls : Usage I → List (Call I) → Option (Usage I)
  unfolding call
  calls u [] = some u
  calls u (c ∷ cs) = elim (call u c) [ none ↦ none | some u' ↦ calls u' cs ]
