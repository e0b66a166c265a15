-- ===== src/RateLimiter.antt =====
-- `RateLimiter` of src/okx_rest_client.cpp. Times are milliseconds since the epoch. `wait` holds the
-- limiter's mutex from its first line to its last, so calls follow one another and are a sequence
-- here. The clock enters as the time read at the start of a call and the time read after a sleep.
pub mod Admits
pub mod Window
mod Examples
use okx_cpp_api.Prelude.{
  ℕ, ◌+◌, ◌-◌, List, [], ◌∷◌, ◌++◌, Option, none, some, ltb, leb, if◌then◌else◌, length,
}

-- The front of the deque is the head of the list.
pub record RateLimiter : Type 0 where
  pub request_times : List ℕ
  pub limit : ℕ
  pub window_size_ms : ℕ

-- `RateLimiter(limit, windowMs)`.
abbrev pub new_rate_limiter : ℕ → ℕ → RateLimiter
new_rate_limiter limit window_ms = record {
  request_times = [];
  limit = limit;
  window_size_ms = window_ms;
}

-- `klineLimiter` and `marketDataHistoryLimiter` of the client.
abbrev pub kline_limiter : RateLimiter
kline_limiter = new_rate_limiter 20 2000

abbrev pub market_data_history_limiter : RateLimiter
market_data_history_limiter = new_rate_limiter 1 1000

-- "Remove old requests": `now - front > window`, with the subtraction taken to the other side.
unfoldable pub remove_old : ℕ → ℕ → List ℕ → List ℕ
remove_old now window [] = []
remove_old now window (t ∷ ts) = if ltb (t + window) now then remove_old now window ts else t ∷ ts

-- `m_requestTimes.push_back(now)`, and the time that was recorded.
abbrev push_back : RateLimiter → List ℕ → ℕ → RateLimiter × ℕ
push_back l times now = (record l { request_times = times ++ (now ∷ []) }, now)

-- The branch for a full window. `later d` is the clock after a sleep of `d` ms; `none` stands for
-- `front()` of an empty deque, which is undefined behaviour.
unfoldable pub wait_full : RateLimiter → ℕ → (ℕ → ℕ) → List ℕ → Option (RateLimiter × ℕ)
wait_full l now later [] = none
wait_full l now later (oldest ∷ rest) =
    let wait_time = oldest + l.window_size_ms + 10 - now in
    let woken = later wait_time in
    if ltb 0 wait_time
    then some (push_back l (remove_old woken l.window_size_ms (oldest ∷ rest)) woken)
    else some (push_back l (oldest ∷ rest) now)

-- `RateLimiter::wait`.
unfoldable pub wait : RateLimiter → ℕ → (ℕ → ℕ) → Option (RateLimiter × ℕ)
unfolding wait_full
wait l now later =
    let times = remove_old now l.window_size_ms l.request_times in
    if leb l.limit (length times) then wait_full l now later times else some (push_back l times now)

-- A sequence of calls by one clock that does not go back. A call is the time since the last
-- recorded request, and the time by which a sleep in it is longer than asked. The log holds the
-- recorded times, the newest first.
pub run_waits : RateLimiter → ℕ → List ℕ → List (ℕ × ℕ) → Option (RateLimiter × List ℕ)
run_waits l last log [] = some (l, log)
run_waits l last log ((since, extra) ∷ calls) =
    elim (wait l (last + since) (λ d. last + since + d + extra)) [
      | none ↦ none
      | some (l', t) ↦ run_waits l' t (t ∷ log) calls
    ]
