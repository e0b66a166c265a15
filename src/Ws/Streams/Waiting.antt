-- ===== src/Ws/Streams/Waiting.antt =====
-- How long a reader waits.
use okx_cpp_api.Prelude.{subst, ltb→lt}
use okx_cpp_api.Prelude.{
  ℕ, zero, suc, ◌+◌, ◌*◌, ◌<◌, ◌≡◌, refl, ap, ◌≢◌, ◌⊎◌, inl, inr, true, false, Option, none, some,
  arith, ltb, Bool-cases, Option-cases,
}
use okx_cpp_api.Prelude.Int.{eqb_ℤ_iff, ℤ, eqb_ℤ, pos, negsuc}
use okx_cpp_api.Ws.Streams.{fits_int, hundred_times, max_num_tries, wait_loop, read_event}

-- By how many ms the first so many sleeps outlast 3 ms each.
pub lateness : (ℕ → ℕ) → ℕ → ℕ
lateness late zero = 0
lateness late (suc n) = lateness late n + late n

-- The result, tries and ms slept of a wait of at most `bound` tries, 3 ms behind each: the first value
-- that the table gives within them, after the tries before it, when the timeout was 0 before none of
-- them; or none, when the table gave none at all tries before the one at which the timeout was found to
-- be 0, or at all of them.
abbrev pub Waits : {V : Type 0} → (ℕ → ℤ) → (ℕ → ℕ) → (ℕ → Option V) → ℕ → Option V × ℕ × ℕ → Type 0
Waits timeout late table bound (none, n, slept) =
    (slept ≡ 3 * n + lateness late n)
    × ((n ≡ bound) ⊎ ((n < bound) × (timeout n ≡ pos 0)))
    × ((i : ℕ) → i < n → (table i ≡ none) × (timeout i ≢ pos 0))
Waits timeout late table bound (some v, n, slept) =
    (slept ≡ 3 * n + lateness late n)
    × (n < bound)
    × (table n ≡ some v)
    × (timeout n ≢ pos 0)
    × ((i : ℕ) → i < n → (table i ≡ none) × (timeout i ≢ pos 0))

module _ {V : Type 0} (timeout : ℕ → ℤ) (late : ℕ → ℕ) (table : ℕ → Option V) where
  wait_loop_hit :
      (left done slept : ℕ) (v : V)
      → eqb_ℤ (timeout done) (pos 0) ≡ false
      → table done ≡ some v
      → wait_loop timeout late table (suc left) done slept ≡ (some v, done, slept)
  unfolding wait_loop
  wait_loop_hit left done slept v t e = rw (t, e, wait_loop)

  wait_loop_miss :
      (left done slept : ℕ)
      → eqb_ℤ (timeout done) (pos 0) ≡ false
      → table done ≡ none
      → wait_loop timeout late table (suc left) done slept
        ≡ wait_loop timeout late table left (done + 1) (slept + (3 + late done))
  unfolding wait_loop
  wait_loop_miss left done slept t e = rw (t, e, wait_loop)

  wait_loop_over :
      (left done slept : ℕ)
      → eqb_ℤ (timeout done) (pos 0) ≡ true
      → wait_loop timeout late table (suc left) done slept ≡ (none, done, slept)
  unfolding wait_loop
  wait_loop_over left done slept t = rw (t, wait_loop)

lateness_next : (late : ℕ → ℕ) (n : ℕ) → lateness late (n + 1) ≡ lateness late n + late n
unfolding lateness
lateness_next late n = let e : n + 1 ≡ suc n = omega arith in ap (lateness late) e

-- What held below a number and holds at it.
upto : (P : ℕ → Type 0) (n : ℕ) → P n → ((i : ℕ) → i < n → P i) → (i : ℕ) → i < n + 1 → P i
upto P n e before i h = elim (Bool-cases (ltb i n)) [
  | inl lt ↦ before i (ltb→lt i n lt)
  | inr ge ↦ let same : n ≡ i = ground arith in subst P same e
]

not_zero : {z : ℤ} → eqb_ℤ z (pos 0) ≡ false → z ≢ pos 0
not_zero {z} t e = let yes = (eqb_ℤ_iff z (pos 0)).1 e in cc

wait_loop-Waits :
    {V : Type 0} (timeout : ℕ → ℤ) (late : ℕ → ℕ) (table : ℕ → Option V) (left done slept bound : ℕ)
    → slept ≡ 3 * done + lateness late done
    → done + left ≡ bound
    → ((i : ℕ) → i < done → (table i ≡ none) × (timeout i ≢ pos 0))
    → Waits timeout late table bound (wait_loop timeout late table left done slept)
unfolding wait_loop
wait_loop-Waits timeout late table zero done slept bound so_far e before =
    (so_far, inl (omega arith), before)
wait_loop-Waits timeout late table (suc left) done slept bound so_far e before =
    elim (Bool-cases (eqb_ℤ (timeout done) (pos 0))) [
      | inl t ↦
          rw (wait_loop_over timeout late table left done slept t)
            (so_far, inr (omega arith, (eqb_ℤ_iff (timeout done) (pos 0)).0 t), before)
      | inr t ↦ elim (Option-cases (table done)) [
        | inl n ↦ rw (wait_loop_miss timeout late table left done slept t n) (
            wait_loop-Waits timeout late table left (done + 1) (slept + (3 + late done)) bound
              (omega (arith, lateness_next late done)) (omega arith)
              (upto (λ i. (table i ≡ none) × (timeout i ≢ pos 0)) done (n, not_zero t) before))
        | inr (v, n) ↦
            rw (wait_loop_hit timeout late table left done slept v t n)
              (so_far, omega arith, n, not_zero t, before)
      ]
    ]

-- A wait that begins under so many seconds; a negative number of seconds leaves no try.
abbrev WaitsFor : {V : Type 0} → (ℕ → ℤ) → (ℕ → ℕ) → (ℕ → Option V) → ℤ → Option V × ℕ × ℕ → Type 0
WaitsFor timeout late table (pos t) r = Waits timeout late table (100 * t + 1) r
WaitsFor timeout late table (negsuc t) r = r ≡ (none, 0, 0)

-- How a call of a reader ends, by whether a hundred times its timeout is an `int`.
abbrev pub Ended :
    {V : Type 0} → (ℕ → ℤ) → (ℕ → ℕ) → (ℕ → Option V) → ℤ → Option (Option V × ℕ × ℕ) → Type 0
Ended {V} timeout late table seconds outcome =
    ((fits_int (hundred_times seconds) ≡ false) × (outcome ≡ none))
    ⊎ ((fits_int (hundred_times seconds) ≡ true)
        × (r : Option V × ℕ × ℕ) × (outcome ≡ some r)
        × WaitsFor timeout late table seconds r)

-- A wait that begins under a timeout of `t` seconds, 0 or more, makes at most `100 t + 1` tries, and
-- sleeps 3 ms behind each but the successful one, and by as much longer as these sleeps outlast the 3 ms,
-- whatever is done to the timeout while it waits. It gives
-- the first value that appears within these tries, and none only if none appears, or if none has appeared
-- when it finds the timeout at 0, as it is when the object is destroyed. A wait that begins under a
-- negative timeout makes no try and does not sleep. It is undefined behaviour just when a hundred times the
-- timeout is too large for an `int`.
pub read_event-Waits :
    {V : Type 0} (timeout : ℕ → ℤ) (late : ℕ → ℕ) (table : ℕ → Option V) (seconds : ℤ)
    → Ended timeout late table seconds (read_event seconds timeout late table)
unfolding read_event max_num_tries hundred_times lateness
read_event-Waits timeout late table (pos t) = elim (Bool-cases (fits_int (pos (100 * t)))) [
  | inr h ↦ inl (h, rw (read_event, max_num_tries, h) refl)
  | inl h ↦ inr (
    h,
    wait_loop timeout late table (100 * t + 1) 0 0,
    rw (read_event, max_num_tries, h) refl,
    wait_loop-Waits timeout late table (100 * t + 1) 0 0 (100 * t + 1) refl (omega arith)
        (λ i k. absurd (omega arith)),
  )
]
read_event-Waits timeout late table (negsuc t) =
    elim (Bool-cases (fits_int (negsuc (100 * t + 99)))) [
      | inr h ↦ inl (h, rw (read_event, max_num_tries, h) refl)
      | inl h ↦ inr (h, (none, 0, 0), rw (read_event, max_num_tries, h) refl, refl)
    ]
