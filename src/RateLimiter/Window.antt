-- ===== src/RateLimiter/Window.antt =====
-- The limiter keeps its promise: no window holds more requests than the limit.
use okx_cpp_api.Prelude.{
  ℕ, zero, suc, ◌+◌, ◌-◌, ◌≤◌, ◌<◌, ◌≡◌, refl, ap, ◌∙◌, Option, some, List, [], ◌∷◌, ◌++◌, reverse,
  append_assoc, arith, length, length-append, length-reverse, All, All-append, All-reverse,
}
use mathlib.Core.List.{reverse-append}
use okx_cpp_api.Prelude.{drop}
use okx_cpp_api.RateLimiter.{new_rate_limiter, run_waits, wait, RateLimiter}
use okx_cpp_api.RateLimiter.Admits.{IsOld, IsOld-later, Admits, wait-Admits}

drop-append {ℓ} : {A : Type ℓ} (xs ys : List A) → drop (length xs) (xs ++ ys) ≡ ys
drop-append [] ys = refl
drop-append (x ∷ xs) ys = drop-append xs ys

All-drop {ℓ κ} : {A : Type ℓ} (P : A → Type κ) (n : ℕ) (xs : List A) → All P xs → All P (drop n xs)
All-drop P zero xs h = h
All-drop P (suc n) [] h = tt
All-drop P (suc n) (x ∷ xs) h = All-drop P n xs h.1

All-drop_le {ℓ κ} :
    {A : Type ℓ} (P : A → Type κ) (m n : ℕ) (xs : List A)
    → m ≤ n
    → All P (drop m xs)
    → All P (drop n xs)
All-drop_le P zero n xs le h = All-drop P n xs h
All-drop_le P (suc m) zero xs le h = absurd (omega arith)
All-drop_le P (suc m) (suc n) [] le h = tt
All-drop_le P (suc m) (suc n) (x ∷ xs) le h = All-drop_le P m n xs (omega arith) h

-- In a log, newest first: all but the `limit - 1` requests just before a request lie more than a
-- window before it.
abbrev pub IsSpaced : ℕ → ℕ → List ℕ → Type 0
IsSpaced limit window [] = Unit {0}
IsSpaced limit window (t ∷ log) =
    All (IsOld window t) (drop (limit - 1) log) × IsSpaced limit window log

-- The log of a run and the deque that the run has come to: the deque is the newest part of the log,
-- and all that has left it is more than a window old at the last request.
pub record IsLogged (limit window : ℕ) (l : RateLimiter) (last : ℕ) (log : List ℕ) : Type 0 where
  pub past : List ℕ
  pub limit_eq : l.limit ≡ limit
  pub window_eq : l.window_size_ms ≡ window
  pub parts : log ≡ reverse l.request_times ++ past
  pub past_old : All (IsOld window last) past
  pub fits : length l.request_times ≤ limit
  pub spaced : IsSpaced limit window log

IsLogged-step :
    (limit window : ℕ) (l : RateLimiter) (last : ℕ) (log : List ℕ) (kept gone : List ℕ) (t : ℕ)
    → IsLogged limit window l last log
    → last ≤ t
    → l.request_times ≡ gone ++ kept
    → All (IsOld window t) gone
    → length kept < limit
    → IsLogged limit window (record l { request_times = kept ++ (t ∷ []) }) t (t ∷ log)
IsLogged-step limit window l last log kept gone t i h e old room =
    let past = reverse gone ++ i.past in
    let apart : log ≡ reverse kept ++ past =
      i.parts
      ∙ (ap (λ r. reverse r ++ i.past) e
          ∙ (ap (λ r. r ++ i.past) (reverse-append gone kept)
              ∙ append_assoc (reverse kept) (reverse gone) i.past)) in
    let far : All (IsOld window t) past =
      All-append (IsOld window t) (reverse gone) i.past (All-reverse (IsOld window t) gone old)
        (IsOld-later window i.past h i.past_old) in
    record {
      past = past;
      limit_eq = i.limit_eq;
      window_eq = i.window_eq;
      parts = rw (reverse-append kept (t ∷ [])) (ap (◌∷◌ t) apart);
      past_old = far;
      fits = omega (arith, length-append kept (t ∷ []));
      spaced = (
        All-drop_le (IsOld window t) (length (reverse kept)) (limit - 1) log
            (omega (arith, length-reverse kept)) (rw (apart, drop-append (reverse kept) past) far),
        i.spaced,
      );
    }

Admits-IsLogged :
    (limit window : ℕ) (l : RateLimiter) (last now : ℕ) (log : List ℕ)
    (r : Option (RateLimiter × ℕ)) (a : Admits l now r)
    → last ≤ now
    → IsLogged limit window l last log
    → IsLogged limit window
        (record l { request_times = a.kept ++ (a.time ∷ []) })
        a.time
        (a.time ∷ log)
Admits-IsLogged limit window l last now log r a h i =
    IsLogged-step limit window l last log a.kept a.gone a.time i (omega (arith, a.later)) a.split
      (rw i.window_eq at a.old) (rw i.limit_eq at a.room)

-- Time goes by.
pub IsLogged-later :
    (limit window : ℕ) (l : RateLimiter) (last later : ℕ) (log : List ℕ)
    → last ≤ later
    → IsLogged limit window l last log
    → IsLogged limit window l later log
IsLogged-later limit window l last later log h i = record {
  past = i.past;
  limit_eq = i.limit_eq;
  window_eq = i.window_eq;
  parts = i.parts;
  past_old = IsOld-later window i.past h i.past_old;
  fits = i.fits;
  spaced = i.spaced;
}

-- A call of `wait` returns, and its time joins the log.
pub wait-IsLogged :
    (limit window : ℕ) (l : RateLimiter) (last since extra : ℕ) (log : List ℕ)
    → 0 < limit
    → IsLogged limit window l last log
    → (l' : RateLimiter) × (t : ℕ) × (wait l (last + since) (λ d. last + since + d + extra)
        ≡ some (l', t))
      × (last ≤ t)
      × IsLogged limit window l' t (t ∷ log)
wait-IsLogged limit window l last since extra log pos i =
    let now = last + since in
    let a =
      wait-Admits l now (λ d. now + d + extra) (omega (arith, i.limit_eq))
        (omega (arith, i.limit_eq, i.fits)) (λ d. omega arith) in
    (
      _,
      a.time,
      a.result,
      omega (arith, a.later),
      Admits-IsLogged limit window l last now log _ a (omega arith) i,
    )

-- A new limiter, at any time.
pub new_rate_limiter-IsLogged :
    (limit window start : ℕ) → IsLogged limit window (new_rate_limiter limit window) start []
new_rate_limiter-IsLogged limit window start = record {
  past = [];
  limit_eq = refl;
  window_eq = refl;
  parts = refl;
  past_old = tt;
  fits = omega arith;
  spaced = tt;
}

run_waits_cons :
    (l l' : RateLimiter) (last since extra t : ℕ) (log : List ℕ) (calls : List (ℕ × ℕ))
    → wait l (last + since) (λ d. last + since + d + extra) ≡ some (l', t)
    → run_waits l last log ((since, extra) ∷ calls) ≡ run_waits l' t (t ∷ log) calls
unfolding run_waits
run_waits_cons l l' last since extra t log calls e = rw (e, run_waits)

run_waits-IsLogged :
    (limit window : ℕ) (calls : List (ℕ × ℕ)) (l : RateLimiter) (last : ℕ) (log : List ℕ)
    → 0 < limit
    → IsLogged limit window l last log
    → (l' : RateLimiter) × (log' : List ℕ) × (run_waits l last log calls ≡ some (l', log'))
      × (length log' ≡ length log + length calls)
      × IsSpaced limit window log'
unfolding run_waits
run_waits-IsLogged limit window [] l last log pos i = (l, log, refl, omega arith, i.spaced)
run_waits-IsLogged limit window ((since, extra) ∷ calls) l last log pos i =
    let (l₁, t, y, _, i₁) = wait-IsLogged limit window l last since extra log pos i in
    let (l', log', e, n, s) = run_waits-IsLogged limit window calls l₁ t (t ∷ log) pos i₁ in
    (l', log', run_waits_cons l l₁ last since extra t log calls y ∙ e, omega (arith, n), s)

-- For a limit above 0, any number of calls of `wait` on a new limiter, by a clock that does not go
-- back, all return: each is recorded in the log, and any request in the log comes more than the
-- window after each request that stands `limit` places or more before it, so no window holds more
-- than `limit` requests.
pub run_waits-IsSpaced :
    (limit window start : ℕ) (calls : List (ℕ × ℕ))
    → 0 < limit
    → (l' : RateLimiter) × (log : List ℕ) × (run_waits
          (new_rate_limiter limit window)
          start
          []
          calls
        ≡ some (l', log))
      × (length log ≡ length calls)
      × IsSpaced limit window log
run_waits-IsSpaced limit window start calls pos =
    let (l', log, e, n, spaced) =
      run_waits-IsLogged limit window calls (new_rate_limiter limit window) start [] pos
        (new_rate_limiter-IsLogged limit window start) in
    (l', log, e, omega (arith, n), spaced)
