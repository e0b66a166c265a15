-- ===== src/History/Endless.antt =====
-- What `from = -1` does to a paged download: the guards of the parameters are crossed, `after` is
-- sent only if `from` is given, and without `after` every page is the newest one.
use okx_cpp_api.Prelude.{
  lt→ltb, ℕ, zero, suc, ◌≡◌, refl, ap, ◌∙◌, Bool, false, List, [], ◌∷◌, arith, back, Bytes,
}
use okx_cpp_api.Prelude.Int.{ℤ, minus_one, ◌<ℤ◌, eqb_ℤ}
use okx_cpp_api.Result.{Result, ok}
use okx_cpp_api.Models.{Candle}
use okx_cpp_api.Enums.{BarSize}
use okx_cpp_api.Http.{Parameters}
use okx_cpp_api.History.{
  running, Pages, page_loop, fetch_pages, candle_parameters, candle_batch, get_historical_prices,
}
use okx_cpp_api.History.Complete.{page_loop_next}

module _ {A : Type 0} (time : A → ℤ) (emit : A → List A → List (List A)) (from : ℤ)
    (page : ℤ → Result (List A)) (x : A) (xs : List A) (late : from <ℤ time (back x xs))
    (same : page (time (back x xs)) ≡ ok (x ∷ xs)) where
  page_loop_running :
      (fuel : ℕ) (s : Pages A)
      → (s' : Pages A) × (page_loop time emit from page fuel s (x ∷ xs) ≡ (s', running))
  unfolding page_loop
  page_loop_running zero s = (s, refl)
  page_loop_running (suc fuel) s =
      let (s', e) = page_loop_running fuel _ in
      (s', page_loop_next time emit from page fuel s x xs (x ∷ xs) late same ∙ e)

not_minus_one : (t : ℤ) → minus_one <ℤ t → eqb_ℤ t minus_one ≡ false
not_minus_one t h = ground arith

-- Without a `from`, the parameters do not depend on `to`.
candle_parameters_same :
    (to_string : ℤ → Bytes) (inst_id : Bytes) (bar_size : BarSize) (to t limit : ℤ)
    → minus_one <ℤ to
    → minus_one <ℤ t
    → candle_parameters to_string inst_id bar_size minus_one to limit
      ≡ candle_parameters to_string inst_id bar_size minus_one t limit
unfolding candle_parameters
candle_parameters_same to_string inst_id bar_size to t limit h k =
    rw (not_minus_one to h, not_minus_one t k)

-- With `from = -1`, and an exchange whose answer depends on the request alone, a download that gets
-- a first page whose last candle is later than -1 never leaves its loop: it is still running however
-- many rounds it has made.
pub get_historical_prices_endless :
    {D : Type 0} (to_string : ℤ → Bytes) (fetch : Parameters → Result (List (Candle D)))
    (inst_id : Bytes) (bar_size : BarSize) (to limit : ℤ) (has_writer : Bool) (x : Candle D)
    (xs : List (Candle D))
    → minus_one <ℤ to
    → fetch (candle_parameters to_string inst_id bar_size minus_one to limit) ≡ ok (x ∷ xs)
    → minus_one <ℤ (back x xs).ts
    → (fuel : ℕ)
    → (get_historical_prices
        (λ t. fetch (candle_parameters to_string inst_id bar_size minus_one t limit))
        has_writer
        fuel
        minus_one
        to).1
      ≡ running
unfolding get_historical_prices fetch_pages
get_historical_prices_endless to_string fetch inst_id bar_size to limit has_writer x xs h e late
      fuel =
    let last = (back x xs).ts in
    let page = λ (t : ℤ). fetch (candle_parameters to_string inst_id bar_size minus_one t limit) in
    let same : page last ≡ ok (x ∷ xs) =
      ap fetch (candle_parameters_same to_string inst_id bar_size last to limit late h) ∙ e in
    let (s', stuck) =
      page_loop_running (λ c. c.ts) (candle_batch has_writer) minus_one page x xs late same fuel
        (record { ret_val = []; written = [] }) in
    rw (lt→ltb _ _ h, e, stuck)
