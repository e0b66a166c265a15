-- ===== src/Ws/Client/Confirmed.antt =====
-- A first subscribing, from the call to the confirmation of the exchange: the client, its session and the
-- handlers of the connection.
use okx_cpp_api.Prelude.{
  subst, ◌≡◌, refl, sym, ap, inl, inr, true, false, none, some, [], ◌∷◌, if◌then◌else◌, Bool-cases,
  is_empty, Bytes, codes, bytes_eq_iff,
}
use okx_cpp_api.Result.{ok}
use okx_cpp_api.Enums.{OperationType, EventType}
use okx_cpp_api.Json.{JsonLibrary, IsJson}
use okx_cpp_api.Ws.Messages.{
  WsSubscription, WsResponse, new_response, subscription_to_json, response_from_json,
}
use okx_cpp_api.Ws.Session.{
  Session, new_session, contains_text, write_subscription_request, request_text,
  handle_control_event, handle_message, next_action, on_read, apply_event,
  read_subscription_request,
}
use okx_cpp_api.Ws.Session
use okx_cpp_api.Ws.Messages.Roundtrip.{IsDumped}
use okx_cpp_api.Ws.Session.Requests.{read_written}
use okx_cpp_api.Ws.Session.Connection.{
  Connection, timing, writing, reading, on_handshake, on_read_done,
}
use okx_cpp_api.Ws.Client.{
  Client, run, session_run, subscribe, is_subscribed, subscribe_stream, subscribe_tickers_stream,
}

run_lem : (c : Client) → run c ≡ record c { is_running = true }
unfolding run
run_lem c = elim (Bool-cases c.is_running) [
  | inl h ↦
      let same : c ≡ record c { is_running = true } = ap (λ b. record c { is_running = b }) h in
      subst
        (λ b. (if b then c else record c { is_running = true }) ≡ record c { is_running = true })
        (sym h) same
  | inr h ↦
      subst
        (λ b. (if b then c else record c { is_running = true }) ≡ record c { is_running = true })
        (sym h) refl
]

-- A client that runs with a session.
abbrev pub with_session : Client → Session → Client
with_session c s = record c { session = some s; is_running = true }

abbrev pub confirmed_session : Bytes → Session
confirmed_session t = record new_session { subscriptions = t ∷ [] }

subscribe_stream_first :
    (c : Client) (t : Bytes)
    → c.session ≡ none
    → is_empty t ≡ false
    → subscribe_stream c t ≡ ok (with_session c (record new_session { subscription_request = t }))
unfolding subscribe_stream subscribe session_run is_subscribed write_subscription_request
    contains_text
subscribe_stream_first c t none_yet full =
    rw (subscribe_stream, is_subscribed, none_yet, subscribe, session_run, full) (ap ok (run_lem _))

is_subscribed_confirmed :
    (c : Client) (t : Bytes) → is_subscribed (with_session c (confirmed_session t)) t ≡ true
unfolding is_subscribed Session.is_subscribed contains_text
is_subscribed_confirmed c t = rw ((bytes_eq_iff t t).1 refl) refl

subscribe_stream_again :
    (c : Client) (t : Bytes)
    → subscribe_stream (with_session c (confirmed_session t)) t
      ≡ ok (with_session c (confirmed_session t))
unfolding subscribe_stream run
subscribe_stream_again c t = rw (subscribe_stream, is_subscribed_confirmed c t) refl

module _ {J : Type 0} (json : JsonLibrary J) (op_json : OperationType → J)
    (laws : IsJson json) where
  on_read_confirmed :
      (message : Bytes) (j : J) (r : WsResponse)
      → json.parse message ≡ ok j
      → json.is_object j ≡ true
      → json.contains j (codes "event") ≡ true
      → response_from_json json new_response j ≡ ok r
      → r.event ≡ EventType.subscribe
      → on_read json op_json new_session message ≡ (
        confirmed_session (json.dump (subscription_to_json json r.subscription)),
        none,
        Session.Action.read,
      )
  unfolding on_read handle_message handle_control_event next_action read_subscription_request
      apply_event
  on_read_confirmed message j r parsed an_object control response event =
      rw
        (on_read, parsed, handle_message, an_object, control, handle_control_event, response, event)
        refl

  -- A first subscribing to the tickers of an instrument, on a client without a session: the session that
  -- it makes writes the request for it once the handshake is done, and then none waits. When the
  -- exchange confirms the subscription in its first message, the session reads on, the client says that
  -- it is subscribed, and subscribing again succeeds and changes nothing. (The name of the
  -- instrument is UTF-8, and the text of the subscription is taken not to be empty, as no JSON text is.)
  pub subscribe_tickers_stream_confirmed :
      (c : Client) (k : Connection) (inst_id message : Bytes) (j : J) (r : WsResponse)
      → let wanted : WsSubscription = record { channel = codes "tickers"; inst_id = inst_id } in
        let t = json.dump (subscription_to_json json wanted) in
        c.session ≡ none
        → IsDumped json wanted
        → is_empty t ≡ false
        → json.parse message ≡ ok j
        → json.is_object j ≡ true
        → json.contains j (codes "event") ≡ true
        → response_from_json json new_response j ≡ ok r
        → r.event ≡ EventType.subscribe
        → r.subscription ≡ wanted
        → let asked = record new_session { subscription_request = t } in
          (subscribe_tickers_stream json c inst_id ≡ ok (with_session c asked))
          × (on_handshake json op_json (record k { session = asked }) false ≡ (
            record k { session = new_session },
            timing ∷ writing (request_text json op_json wanted) ∷ [],
          ))
          × (on_read_done json op_json (record k { session = new_session }) (some message)
              ≡ (record k { session = confirmed_session t }, reading ∷ []))
          × (is_subscribed (with_session c (confirmed_session t)) t ≡ true)
          × (subscribe_tickers_stream json (with_session c (confirmed_session t)) inst_id
              ≡ ok (with_session c (confirmed_session t)))
  unfolding subscribe_tickers_stream on_handshake on_read_done
  subscribe_tickers_stream_confirmed c k inst_id message j r none_yet utf8 full parsed an_object
        control response event same =
      let wanted : WsSubscription = record { channel = codes "tickers"; inst_id = inst_id } in
      (
        subscribe_stream_first c _ none_yet full,
        rw (on_handshake, read_written json op_json laws new_session wanted utf8 full) refl,
        rw
            (
              on_read_done,
              on_read_confirmed message j r parsed an_object control response event,
              same,
            )
            refl,
        is_subscribed_confirmed c _,
        subscribe_stream_again c _,
      )
