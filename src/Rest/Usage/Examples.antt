-- ===== src/Rest/Usage/Examples.antt =====
-- A client that is used a little.
use okx_cpp_api.Prelude.{
  ℕ, ◌≡◌, refl, false, some, List, [], ◌∷◌, if◌then◌else◌, length, Bytes, codes, bytes_eq,
}
use okx_cpp_api.Prelude.Int.{ℤ, pos}
use okx_cpp_api.Result.{Result, ok, err, foreign}
use okx_cpp_api.Http.{http_get, Network, Signer}
use okx_cpp_api.Models.{Candle}
use okx_cpp_api.Models.Archive.{MarketDataHistory}
use okx_cpp_api.RateLimiter.Window.{IsSpaced}
use okx_cpp_api.Rest.Usage.Kept.{calls-keep-instruments}
use okx_cpp_api.Rest.{
  Reading, new_rest_client, set_instruments, get_instruments, get_and_read, check_response,
  handle_okx_response,
}
use okx_cpp_api.Rest.Usage.{
  Call, credentials, ask_instruments, ask_candles, ask_history, Usage, call, calls,
}
use okx_cpp_api.Rest.Usage.Paced.{candle_requests, history_requests, calls-IsSpaced}

abbrev no_signer : Signer
no_signer = record { sign = λ secret message. [] }

abbrev answers : Network
answers host req = ok (record { result_int = 200; body = codes "0" })

abbrev stoi : Bytes → Result ℤ
stoi s = if bytes_eq s (codes "0") then ok (pos 0) else ok (pos 1)

abbrev read_instruments : Bytes → Result (Reading (List ℕ))
read_instruments body = ok (record { code = body; msg = []; value = 7 ∷ [] })

abbrev read_candles : Bytes → Result (Reading (List (Candle ℕ)))
read_candles body = ok (record { code = body; msg = []; value = [] })

abbrev read_history : Bytes → Result (Reading MarketDataHistory)
read_history body = err (foreign body)

-- Candles twice, and two lists of files that do not read, at once, with new credentials between them.
abbrev some_calls : List (Call ℕ)
some_calls =
    ask_instruments answers [] (codes "SWAP") false
    ∷ ask_candles answers 0 0 [] []
    ∷ ask_history answers 0 3 [] []
    ∷ credentials (codes "key") (codes "secret") []
    ∷ ask_history answers 1 0 [] []
    ∷ ask_candles answers 5 0 [] []
    ∷ []

calls-IsSpaced_example :
    (u : Usage ℕ) × (calls [] no_signer stoi read_instruments read_candles read_history
        (record { client = new_rest_client [] [] []; clock = 9; candle_log = []; history_log = [] })
        some_calls
      ≡ some u)
    × (length u.candle_log ≡ candle_requests some_calls)
    × IsSpaced 20 2000 u.candle_log
    × (length u.history_log ≡ history_requests some_calls)
    × IsSpaced 1 1000 u.history_log
calls-IsSpaced_example =
    calls-IsSpaced [] no_signer stoi read_instruments read_candles read_history [] [] [] 9
      some_calls

-- The client that has asked for the swaps.
abbrev with_swaps : Usage ℕ
with_swaps = record {
  client = set_instruments (new_rest_client [] [] []) (7 ∷ []);
  clock = 9;
  candle_log = [];
  history_log = [];
}

abbrev swaps_asked : List (Call ℕ)
swaps_asked = ask_instruments answers [] (codes "SWAP") false ∷ []

abbrev later_calls : List (Call ℕ)
later_calls =
    ask_candles answers 0 0 [] []
    ∷ ask_instruments answers [] (codes "SPOT") false
    ∷ credentials (codes "key") (codes "secret") []
    ∷ []

calls-keep-instruments_example :
    (u : Usage ℕ) × (calls [] no_signer stoi read_instruments read_candles read_history with_swaps
        later_calls
      ≡ some u)
    × ((network : Network) (ts inst_type : Bytes)
        → get_instruments network [] no_signer stoi u.client ts read_instruments inst_type false
          ≡ (u.client, ok (7 ∷ [])))
unfolding calls call get_instruments set_instruments get_and_read http_get check_response
    handle_okx_response new_rest_client
calls-keep-instruments_example =
    calls-keep-instruments [] no_signer stoi read_instruments read_candles read_history [] [] [] 9
      swaps_asked later_calls with_swaps refl refl (tt, (refl, (tt, tt)))
