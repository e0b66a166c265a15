-- ===== src/RateLimiter/Examples.antt =====
-- The limiter on concrete clocks.
use okx_cpp_api.Prelude.{ℕ, ◌≡◌, refl, some, List, [], ◌∷◌, arith, length}
use okx_cpp_api.RateLimiter.{new_rate_limiter, run_waits, remove_old, RateLimiter, wait}
use okx_cpp_api.RateLimiter.Window.{IsSpaced, run_waits-IsSpaced}

-- Three calls on a limiter of two requests in a second; the third is one too many, and sleeps.
abbrev burst : List (ℕ × ℕ)
burst = (0, 0) ∷ (100, 0) ∷ (100, 3) ∷ []

abbrev pair_limiter : RateLimiter
pair_limiter = new_rate_limiter 2 1000

burst_log :
    run_waits pair_limiter 5000 [] burst
    ≡ some (record pair_limiter { request_times = 5100 ∷ 6013 ∷ [] }, 6013 ∷ 5100 ∷ 5000 ∷ [])
unfolding run_waits wait remove_old
burst_log = refl

run_waits-IsSpaced_example :
    (l' : RateLimiter) × (log : List ℕ) × (run_waits (new_rate_limiter 2 1000) 5000 [] burst
      ≡ some (l', log))
    × (length log ≡ 3)
    × IsSpaced 2 1000 log
run_waits-IsSpaced_example = run_waits-IsSpaced 2 1000 5000 burst (omega arith)
