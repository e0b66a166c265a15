-- ===== src/Connector/Pace.antt =====
-- How fast the tasks of src/okx_futures_exchange_connector.cpp ask.
use okx_cpp_api.Prelude.{
  ℕ, ◌+◌, ◌*◌, ◌≤◌, ◌<◌, ◌≡◌, refl, inl, inr, ◌&&◌, List, [], ◌∷◌, arith, ltb, leb, if◌then◌else◌,
  Bool-cases, false, All,
}
use okx_cpp_api.Connector.{Job, task_time, held_time, request_times}

-- How many of the times are in the window of `width` from `from` on.
pub in_window : ℕ → ℕ → List ℕ → ℕ
in_window from width [] = 0
in_window from width (t ∷ ts) =
    (if leb from t && ltb t (from + width) then 1 else 0) + in_window from width ts

task_time-le : (elapsed : ℕ) → 344000000 ≤ task_time elapsed
unfolding task_time
task_time-le elapsed = ground arith

held_time-le : (job : Job) → job.throws ≡ false → 344000000 ≤ held_time job
unfolding held_time
held_time-le job h = rw (held_time, h) (task_time-le job.elapsed)

-- No request of the tasks throws.
abbrev pub IsAnswered : Job → Type 0
IsAnswered job = job.throws ≡ false

module _ (from width : ℕ) where
  abbrev seen : ℕ → List Job → ℕ
  seen t jobs = in_window from width (request_times t jobs)

  seen-late : (t : ℕ) (jobs : List Job) → from + width ≤ t → seen t jobs ≡ 0
  unfolding in_window request_times
  seen-late t [] late = refl
  seen-late t (job ∷ jobs) late =
      ground (arith, late, seen-late (t + held_time job + job.idle) jobs (omega (arith, late)))

  seen-within :
      (t : ℕ) (jobs : List Job)
      → All IsAnswered jobs
      → t < from + width
      → from ≤ t
      → seen t jobs * 344000000 + t < from + width + 344000000
  unfolding in_window request_times
  seen-within t [] _ soon begun = omega (arith, soon)
  seen-within t (job ∷ jobs) (answered, rest) soon begun =
      let next = t + held_time job + job.idle in
      elim (Bool-cases (ltb next (from + width))) [
        | inl y ↦ ground (
          arith,
          held_time-le job answered,
          seen-within next jobs rest (ground (arith, y)) (omega (arith, begun)),
        )
        | inr y ↦ ground (arith, seen-late next jobs (ground (arith, y)))
      ]

  seen-bound :
      (t : ℕ) (jobs : List Job) → All IsAnswered jobs → seen t jobs * 344000000 < width + 344000000
  unfolding in_window request_times
  seen-bound t [] _ = omega arith
  seen-bound t (job ∷ jobs) (answered, rest) = elim (Bool-cases (ltb t (from + width))) [
    | inr late ↦ omega (arith, seen-late t (job ∷ jobs) (ground (arith, late)))
    | inl soon ↦ elim (Bool-cases (leb from t)) [
      | inl begun ↦
          let started : from ≤ t = ground (arith, begun) in
          omega (
            arith,
            started,
            seen-within t (job ∷ jobs) (answered, rest) (ground (arith, soon)) started,
          )
      | inr before ↦ ground (arith, before, seen-bound (t + held_time job + job.idle) jobs rest)
    ]
  ]

-- When no request throws, however long the requests take and whenever a permit is taken again, the tasks of
-- the three permits together begin at most 18 requests within 2 seconds, where the exchange allows 20.
pub request_times-allowed :
    (from t₁ t₂ t₃ : ℕ) (jobs₁ jobs₂ jobs₃ : List Job)
    → All IsAnswered jobs₁
    → All IsAnswered jobs₂
    → All IsAnswered jobs₃
    → in_window from 2000000000 (request_times t₁ jobs₁)
        + in_window from 2000000000 (request_times t₂ jobs₂)
        + in_window from 2000000000 (request_times t₃ jobs₃)
      ≤ 18
request_times-allowed from t₁ t₂ t₃ jobs₁ jobs₂ jobs₃ h₁ h₂ h₃ = omega (
  arith,
  seen-bound from 2000000000 t₁ jobs₁ h₁,
  seen-bound from 2000000000 t₂ jobs₂ h₂,
  seen-bound from 2000000000 t₃ jobs₃ h₃,
)
