-- ===== src/Ws/Feed/Reading.antt =====
-- A reader that waits while messages come in.
use okx_cpp_api.Prelude.{
  ℕ, zero, suc, ◌≡◌, refl, sym, ap, ◌∙◌, true, Option, List, [], ◌∷◌, ◌++◌, Bytes,
}
use mathlib.Core.Path.{subst, fun_ext}
use okx_cpp_api.Prelude.Int.{ℤ}
use okx_cpp_api.Enums.{OperationType, BarSize, CandlestickChannel, EnumText}
use okx_cpp_api.Result.{Result}
use okx_cpp_api.Json.{JsonLibrary}
use okx_cpp_api.Ws.Session.Heard.{events_in}
use okx_cpp_api.Ws.Streams.{
  readable, Callback, done, undefined, lookup_ticker, lookup_candlestick, read_event,
}
use okx_cpp_api.Ws.Streams.Registers.{first_ticker, last_candlestick}
use okx_cpp_api.Ws.Streams.Waiting.{Ended, read_event-Waits}
use okx_cpp_api.Ws.Feed.{Feed, deliver, deliver_all}
use okx_cpp_api.Ws.Feed.Delivery.{deliver_all-registers}

-- The messages of the batches before the n-th.
pub messages_before : (ℕ → List Bytes) → ℕ → List Bytes
messages_before batch zero = []
messages_before batch (suc n) = messages_before batch n ++ batch n

module _ {J T C : Type 0} (json : JsonLibrary J) (op_json : OperationType → J)
    (ticker_from_json : J → Result T) (candlestick_from_json : J → Result C)
    (channels : EnumText CandlestickChannel) where
  abbrev fed_all : Feed T C → List Bytes → Callback (Feed T C)
  fed_all = deliver_all json op_json ticker_from_json candlestick_from_json channels

  deliver_all-append :
      (f f' : Feed T C) (xs ys : List Bytes)
      → fed_all f xs ≡ done f'
      → fed_all f (xs ++ ys) ≡ fed_all f' ys
  unfolding deliver_all
  deliver_all-append f f' [] ys h =
      let given : done f ≡ done f' = h in let same : f ≡ f' = cc in ap (λ x. fed_all x ys) same
  deliver_all-append f f' (x ∷ xs) ys h =
      next (λ f1 k. deliver_all-append f1 f' xs ys k)
        (deliver json op_json ticker_from_json candlestick_from_json channels f x) h
    where
      next :
          ((f1 : Feed T C) → fed_all f1 xs ≡ done f' → fed_all f1 (xs ++ ys) ≡ fed_all f' ys)
          → (r : Callback (Feed T C))
          → elim r [ undefined ↦ undefined | done f1 ↦ fed_all f1 xs ] ≡ done f'
          → elim r [ undefined ↦ undefined | done f1 ↦ fed_all f1 (xs ++ ys) ] ≡ fed_all f' ys
      next ih undefined k = cc
      next ih (done f1) k = ih f1 k

  -- A session and a reader that take turns: `stage i` is the feed at the i-th try of the reader, and
  -- `batch i` are the messages that come in between this try and the next.
  module _ (stage : ℕ → Feed T C) (batch : ℕ → List Bytes)
      (turns : (i : ℕ) → fed_all (stage i) (batch i) ≡ done (stage (suc i)))
      (stays_open : (i : ℕ) → (stage i).is_open ≡ true) where
    stage-after : (i : ℕ) → fed_all (stage 0) (messages_before batch i) ≡ done (stage i)
    unfolding messages_before deliver_all
    stage-after zero = refl
    stage-after (suc i) =
        deliver_all-append (stage 0) (stage i) (messages_before batch i) (batch i) (stage-after i)
        ∙ turns i

    -- What the messages before the i-th try say.
    abbrev pub ticker_said : Bytes → ℕ → Option T
    ticker_said i n =
        first_ticker (readable ticker_from_json) (readable candlestick_from_json) channels i
          (events_in json (messages_before batch n)) (lookup_ticker (stage 0).manager i)

    abbrev pub candlestick_said : Bytes → BarSize → ℕ → Option C
    candlestick_said i b n =
        last_candlestick (readable ticker_from_json) (readable candlestick_from_json) channels i b
          (events_in json (messages_before batch n)) (lookup_candlestick (stage 0).manager i b)

    stage-said :
        (n : ℕ)
        → ((i : Bytes) → lookup_ticker (stage n).manager i ≡ ticker_said i n)
          × ((i : Bytes) (b : BarSize)
              → lookup_candlestick (stage n).manager i b ≡ candlestick_said i b n)
    stage-said n =
        deliver_all-registers json op_json ticker_from_json candlestick_from_json channels (stage 0)
          (stage n) (messages_before batch n) (stage-after n) (stays_open n)

    -- A reader that takes turns with the session, in any interleaving, when the session reads on and no
    -- event ends in undefined behaviour: under a timeout of `t` seconds, 0 or more and of which a hundred
    -- times is an `int`, it makes at most `100 t + 1` tries, with a sleep of 3 ms or more behind each but the
    -- successful one, and gives, at the first try before which a
    -- ticker of the instrument has come in, the first ticker that has; or, of an instrument and a bar size,
    -- at the first try before which candlesticks have come in, the last ones that have. It gives none only
    -- if none came in before its last try, or before the timeout was set to 0.
    pub read_event-interleaved :
        (timeout : ℕ → ℤ) (late : ℕ → ℕ) (seconds : ℤ) (inst_id : Bytes) (bar_size : BarSize)
        → Ended timeout late
            (ticker_said inst_id)
            seconds
            (read_event seconds timeout late (λ i. lookup_ticker (stage i).manager inst_id))
          × Ended timeout late (candlestick_said inst_id bar_size) seconds (
              read_event seconds timeout late
                (λ i. lookup_candlestick (stage i).manager inst_id bar_size))
    read_event-interleaved timeout late seconds inst_id bar_size = (
      subst
          (λ table.
            Ended timeout late (ticker_said inst_id) seconds
              (read_event seconds timeout late table))
          (sym (fun_ext (λ n. (stage-said n).0 inst_id)))
          (read_event-Waits timeout late (ticker_said inst_id) seconds),
      subst
          (λ table.
            Ended timeout late (candlestick_said inst_id bar_size) seconds
              (read_event seconds timeout late table))
          (sym (fun_ext (λ n. (stage-said n).1 inst_id bar_size)))
          (read_event-Waits timeout late (candlestick_said inst_id bar_size) seconds),
    )
