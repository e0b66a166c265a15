-- ===== src/Ws/Client/Subscribing.antt =====
-- What a subscribing leaves behind.
use okx_cpp_api.Prelude.{
  ◌≡◌, refl, ◌∙◌, ◌⊎◌, inl, inr, true, false, some, arith, Bool-cases, Option-cases, is_empty,
  Bytes, codes,
}
use okx_cpp_api.Result.{ok}
use okx_cpp_api.Json.{JsonLibrary}
use okx_cpp_api.Ws.Messages.{subscription_to_json}
use okx_cpp_api.Ws.Session.{Session, new_session, contains_text, write_subscription_request}
use okx_cpp_api.Ws.Session
use okx_cpp_api.Ws.Client.{
  Client, run, session_run, subscribe, is_subscribed, subscribe_stream, subscribe_tickers_stream,
}

-- The client runs, and has a session that is subscribed to the text or has it as its waiting request.
abbrev pub IsAsked : Bytes → Client → Type 0
IsAsked t c =
    (c.is_running ≡ true)
    × ((s : Session) × (c.session ≡ some s)
        × ((Session.is_subscribed s t ≡ true) ⊎ (s.subscription_request ≡ t)))

run_running : (c : Client) → (run c).is_running ≡ true
unfolding run
run_running c = ground arith

run-session : (c : Client) → (run c).session ≡ c.session
unfolding run
run-session c = ground arith

-- What a write of a request comes to.
written :
    (s : Session) (t : Bytes)
    → (Session.is_subscribed (write_subscription_request s t) t ≡ true)
      ⊎ ((write_subscription_request s t).subscription_request ≡ t)
unfolding write_subscription_request Session.is_subscribed
written s t = elim (Bool-cases (contains_text s.subscriptions t)) [
  | inl h ↦ inl (rw (h, write_subscription_request) h)
  | inr h ↦ inr (rw (h, write_subscription_request))
]

subscribe_asked :
    (c : Client) (t : Bytes)
    → is_empty t ≡ false
    → (c' : Client) × (subscribe c t ≡ ok c')
      × ((s : Session) × (c'.session ≡ some s)
          × ((Session.is_subscribed s t ≡ true) ⊎ (s.subscription_request ≡ t)))
unfolding subscribe session_run
subscribe_asked c t full = elim (Option-cases c.session) [
  | inl e ↦
      let s = write_subscription_request new_session t in
      (
        record c { session = some s },
        rw (e, full, subscribe, session_run),
        (s, refl, written new_session t),
      )
  | inr (old, e) ↦
      let s = write_subscription_request old t in
      (record c { session = some s }, rw (e, subscribe), (s, refl, written old t))
]

is_subscribed-some :
    (c : Client) (t : Bytes)
    → is_subscribed c t ≡ true
    → (s : Session) × (c.session ≡ some s) × (Session.is_subscribed s t ≡ true)
unfolding is_subscribed
is_subscribed-some c t h = elim (Option-cases c.session) [
  | inl e ↦ cc (rw (e, is_subscribed) at h)
  | inr (s, e) ↦ (s, e, rw (e, is_subscribed) at h)
]

IsAsked-run :
    (t : Bytes) (c : Client) (s : Session)
    → c.session ≡ some s
    → (Session.is_subscribed s t ≡ true) ⊎ (s.subscription_request ≡ t)
    → IsAsked t (run c)
IsAsked-run t c s e h = (run_running c, (s, run-session c ∙ e, h))

subscribe_stream-IsAsked :
    (c : Client) (t : Bytes)
    → is_empty t ≡ false
    → (c' : Client) × (subscribe_stream c t ≡ ok c')
      × IsAsked t c'
      × ((is_subscribed c t ≡ false) ⊎ (c'.session ≡ c.session))
unfolding subscribe_stream
subscribe_stream-IsAsked c t full = elim (Bool-cases (is_subscribed c t)) [
  | inl h ↦
      let (s, e, found) = is_subscribed-some c t h in
      (run c, rw h, IsAsked-run t c s e (inl found), inr (run-session c))
  | inr h ↦
      let (c1, e, (s, live, asked)) = subscribe_asked c t full in
      (run c1, rw (h, e), IsAsked-run t c1 s live asked, inl h)
]

-- Subscribing to the tickers of an instrument succeeds, whether a session lives or not, where its
-- JSON text is not empty: the client then runs, and its session is subscribed to that text or has it
-- as the request that waits. A session that was subscribed to it already stays as it was.
pub subscribe_tickers_stream-IsAsked :
    {J : Type 0} (json : JsonLibrary J) (c : Client) (inst_id : Bytes)
    → let t =
        json.dump
          (subscription_to_json json (record { channel = codes "tickers"; inst_id = inst_id })) in
      is_empty t ≡ false
      → (c' : Client) × (subscribe_tickers_stream json c inst_id ≡ ok c')
        × IsAsked t c'
        × ((is_subscribed c t ≡ false) ⊎ (c'.session ≡ c.session))
unfolding subscribe_tickers_stream
subscribe_tickers_stream-IsAsked json c inst_id full = subscribe_stream-IsAsked c _ full
