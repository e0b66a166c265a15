-- ===== src/RateLimiter/Admits.antt =====
-- What one call of the limiter does to its deque.
use okx_cpp_api.Prelude.{
  lt→ltb, ℕ, ◌+◌, ◌-◌, ◌≤◌, ◌<◌, ◌≡◌, refl, sym, ap, ◌∙◌, inl, inr, Option, some, List, [], ◌∷◌,
  ◌++◌, append_assoc, arith, ltb, leb, Bool-cases, length, All, All-append, All-map,
}
use okx_cpp_api.RateLimiter.{RateLimiter, remove_old, wait_full, wait}

-- More than a window before a time.
abbrev pub IsOld : ℕ → ℕ → ℕ → Type 0
IsOld window now t = t + window < now

remove_old_split :
    (now window : ℕ) (ts : List ℕ)
    → (gone : List ℕ) × (ts ≡ gone ++ remove_old now window ts) × All (IsOld window now) gone
unfolding remove_old
remove_old_split now window [] = ([], refl, tt)
remove_old_split now window (t ∷ ts) =
    let (gone, e, old) = remove_old_split now window ts in
    elim (Bool-cases (ltb (t + window) now)) [
      | inl h ↦ rw h (t ∷ gone, ap (◌∷◌ t) e, (ground arith, old))
      | inr h ↦ rw h ([], refl, tt)
    ]

length-remove_old-le :
    (now window : ℕ) (ts : List ℕ) → length (remove_old now window ts) ≤ length ts
unfolding remove_old
length-remove_old-le now window [] = omega arith
length-remove_old-le now window (t ∷ ts) = ground (arith, length-remove_old-le now window ts)

remove_old_past :
    (now window t : ℕ) (ts : List ℕ)
    → IsOld window now t
    → remove_old now window (t ∷ ts) ≡ remove_old now window ts
unfolding remove_old
remove_old_past now window t ts h = ground arith

-- The first request that is kept lies within the window.
pub front-remove_old :
    (now window : ℕ) (ts : List ℕ) (t : ℕ) (rest : List ℕ)
    → remove_old now window ts ≡ t ∷ rest
    → now ≤ t + window
unfolding remove_old
front-remove_old now window [] t rest e = cc
front-remove_old now window (x ∷ ts) t rest e =
    ground (arith, front-remove_old now window ts t rest)

-- What one call does to a deque within its limit.
pub record Admits (l : RateLimiter) (now : ℕ) (r : Option (RateLimiter × ℕ)) : Type 0 where
  pub gone : List ℕ
  pub kept : List ℕ
  pub time : ℕ
  pub result : r ≡ some (record l { request_times = kept ++ (time ∷ []) }, time)
  pub later : now ≤ time
  pub split : l.request_times ≡ gone ++ kept
  pub old : All (IsOld l.window_size_ms time) gone
  pub room : length kept < l.limit

pub IsOld-later :
    (window : ℕ) {a b : ℕ} (ts : List ℕ) → a ≤ b → All (IsOld window a) ts → All (IsOld window b) ts
IsOld-later window {a} {b} ts h = All-map (IsOld window a) (IsOld window b) (λ t o. omega arith) ts

wait_full-Admits :
    (l : RateLimiter) (now : ℕ) (later : ℕ → ℕ) (gone times : List ℕ)
    → ((d : ℕ) → now + d ≤ later d)
    → 0 < length times
    → length times ≤ l.limit
    → ((t : ℕ) (rest : List ℕ) → times ≡ t ∷ rest → now ≤ t + l.window_size_ms)
    → l.request_times ≡ gone ++ times
    → All (IsOld l.window_size_ms now) gone
    → Admits l now (wait_full l now later times)
unfolding wait_full
wait_full-Admits l now later gone [] clock pos fits front e old = absurd (omega arith)
wait_full-Admits l now later gone (t ∷ rest) clock pos fits front e old =
    let w = l.window_size_ms in
    let wait_time = t + w + 10 - now in
    let woken = later wait_time in
    let near = front t rest refl in
    let awake = clock wait_time in
    let (more, e', old') = remove_old_split woken w rest in
    let over : IsOld w woken t = omega arith in
    record {
      gone = gone ++ (t ∷ more);
      kept = remove_old woken w rest;
      time = woken;
      result = rw (lt→ltb 0 wait_time (omega arith), remove_old_past woken w t rest over);
      later = omega arith;
      split =
          e
          ∙ (ap (λ r. gone ++ (t ∷ r)) e'
              ∙ sym (append_assoc gone (t ∷ more) (remove_old woken w rest)));
      old =
          All-append (IsOld w woken) gone (t ∷ more) (IsOld-later w gone (omega arith) old)
            (over, old');
      room = omega (arith, length-remove_old-le woken w rest);
    }

pub wait-Admits :
    (l : RateLimiter) (now : ℕ) (later : ℕ → ℕ)
    → 0 < l.limit
    → length l.request_times ≤ l.limit
    → ((d : ℕ) → now + d ≤ later d)
    → Admits l now (wait l now later)
unfolding wait
wait-Admits l now later pos fits clock =
    let w = l.window_size_ms in
    let times = remove_old now w l.request_times in
    let (gone, e, old) = remove_old_split now w l.request_times in
    let short = length-remove_old-le now w l.request_times in
    elim (Bool-cases (leb l.limit (length times))) [
      | inl h ↦ rw h (
          wait_full-Admits l now later gone times clock (ground arith) (omega arith)
            (front-remove_old now w l.request_times) e old)
      | inr h ↦ rw h (record {
        gone = gone;
        kept = times;
        time = now;
        result = refl;
        later = omega arith;
        split = e;
        old = old;
        room = ground arith;
      })
    ]
