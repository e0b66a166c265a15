-- ===== src/Ws/Session/Events.antt =====
-- What messages do to the subscriptions of a session.
use okx_cpp_api.Prelude.{
  ℕ, ◌+◌, ◌-◌, ◌≡◌, refl, true, List, [], ◌∷◌, ◌++◌, arith, if◌then◌else◌, Bytes, bytes_eq,
  bytes_eq_iff,
}
use okx_cpp_api.Result.{ok}
use okx_cpp_api.Enums.{OperationType, EventType}
use okx_cpp_api.Json.{JsonLibrary}
use okx_cpp_api.Ws.Messages.{WsResponse, new_response, subscription_to_json, response_from_json}
use okx_cpp_api.Ws.Session.{
  Session, contains_text, erase_first, apply_event, write_subscription_request, is_subscribed,
  handle_control_event,
}

-- How often a text is among the subscriptions.
pub count : Bytes → List Bytes → ℕ
count u [] = 0
count u (t ∷ ts) = (if bytes_eq t u then 1 else 0) + count u ts

count-append : (u : Bytes) (ts us : List Bytes) → count u (ts ++ us) ≡ count u ts + count u us
unfolding count
count-append u [] us = omega arith
count-append u (t ∷ ts) us = omega (arith, count-append u ts us)

count-erase_first :
    (u s : Bytes) (ts : List Bytes)
    → count u (erase_first s ts) ≡ count u ts - (if bytes_eq s u then 1 else 0)
unfolding count erase_first
count-erase_first u s [] = ground arith
count-erase_first u s (t ∷ ts) =
    ground (arith, bytes_eq_iff t s, bytes_eq_iff s u, bytes_eq_iff t u, count-erase_first u s ts)

contains_text-append_self : (s : Bytes) (ts : List Bytes) → contains_text (ts ++ (s ∷ [])) s ≡ true
unfolding contains_text
contains_text-append_self s [] = rw ((bytes_eq_iff s s).1 refl)
contains_text-append_self s (t ∷ ts) = ground (arith, contains_text-append_self s ts)

-- The number of a text's entries behind an event, from the number before it and 1 if the event is
-- about this text, else 0.
abbrev pub change : EventType → ℕ → ℕ → ℕ
change EventType.error n one = n
change EventType.subscribe n one = n + one
change EventType.unsubscribe n one = n - one

module _ {J : Type 0} (json : JsonLibrary J) (op_json : OperationType → J) where
  abbrev pub response_text : WsResponse → Bytes
  response_text r = json.dump (subscription_to_json json r.subscription)

  count-apply_event :
      (s : Session) (e : EventType) (t u : Bytes)
      → count u (apply_event json op_json s e t).subscriptions
        ≡ change e (count u s.subscriptions) (if bytes_eq t u then 1 else 0)
  unfolding apply_event count
  count-apply_event s EventType.error t u = refl
  count-apply_event s EventType.subscribe t u =
      omega (arith, count-append u s.subscriptions (t ∷ []))
  count-apply_event s EventType.unsubscribe t u = count-erase_first u t s.subscriptions

  pub apply_event_request :
      (s : Session) (e : EventType) (t : Bytes)
      → (apply_event json op_json s e t).subscription_request ≡ s.subscription_request
  unfolding apply_event
  apply_event_request s EventType.error t = refl
  apply_event_request s _ t = refl

  -- A control event that can be read leaves the waiting request alone, and adds one entry of its
  -- subscription if it confirms a subscribing, takes one away, if there is one, if it confirms an
  -- unsubscribing, and changes no entry of another subscription, nor any if it reports an error.
  pub handle_control_event-count :
      (s : Session) (j : J) (r : WsResponse)
      → response_from_json json new_response j ≡ ok r
      → (s' : Session) × (handle_control_event json op_json s j ≡ ok s')
        × (s'.subscription_request ≡ s.subscription_request)
        × ((u : Bytes)
            → count u s'.subscriptions
              ≡ change r.event
                  (count u s.subscriptions)
                  (if bytes_eq (response_text r) u then 1 else 0))
  unfolding handle_control_event
  handle_control_event-count s j r e = (
    apply_event json op_json s r.event (response_text r),
    rw e,
    apply_event_request s r.event (response_text r),
    count-apply_event s r.event (response_text r),
  )

  subscribed :
      (s : Session) (t : Bytes)
      → let s' = apply_event json op_json s EventType.subscribe t in
        (is_subscribed s' t ≡ true) × (write_subscription_request s' t ≡ s')
  unfolding apply_event is_subscribed write_subscription_request
  subscribed s t = let h = contains_text-append_self t s.subscriptions in (h, rw h)

  -- When a subscribing is confirmed, the session is subscribed to the text of that subscription, and
  -- a further request with this text changes nothing.
  pub confirmed_is_subscribed :
      (s : Session) (j : J) (r : WsResponse)
      → response_from_json json new_response j ≡ ok r
      → r.event ≡ EventType.subscribe
      → (s' : Session) × (handle_control_event json op_json s j ≡ ok s')
        × (is_subscribed s' (response_text r) ≡ true)
        × (write_subscription_request s' (response_text r) ≡ s')
  unfolding handle_control_event
  confirmed_is_subscribed s j r e sub = (
    apply_event json op_json s EventType.subscribe (response_text r),
    rw (e, sub),
    (subscribed s (response_text r)).0,
    (subscribed s (response_text r)).1,
  )
