-- ===== src/Ws/Session/Connection/Waiting.antt =====
-- What becomes of the request that waits.
use okx_cpp_api.Prelude.{◌≡◌, sym, ap, ◌∙◌, inl, inr, Option, none, Bool-cases, codes}
use okx_cpp_api.Result.{is_undefined, Result, ok, Result-cases}
use okx_cpp_api.Enums.{OperationType}
use okx_cpp_api.Json.{JsonLibrary}
use okx_cpp_api.Ws.Messages.{
  new_response, subscription_to_json, response_from_json, DataEvent, data_event_from_json,
}
use okx_cpp_api.Ws.Session.{Session, apply_event, handle_control_event, handle_message}
use okx_cpp_api.Ws.Session.Events.{apply_event_request}
use okx_cpp_api.Ws.Session.Connection.{Connection}

module _ {J : Type 0} (json : JsonLibrary J) (op_json : OperationType → J) where
  handle_control_event-request :
      (s s' : Session) (j : J)
      → handle_control_event json op_json s j ≡ ok s'
      → s'.subscription_request ≡ s.subscription_request
  unfolding handle_control_event
  handle_control_event-request s s' j h =
      elim (Result-cases (response_from_json json new_response j)) [
        | inr (e, q) ↦ cc (rw q at h)
        | inl (r, q) ↦
            let t = json.dump (subscription_to_json json r.subscription) in
            let given : ok (apply_event json op_json s r.event t) ≡ ok s' = rw q at h in
            let e : apply_event json op_json s r.event t ≡ s' = cc in
            ap (λ x. x.subscription_request) (sym e) ∙ apply_event_request json op_json s r.event t
      ]

  pub handle_message-request :
      (s s' : Session) (j : J) (event : Option (DataEvent J))
      → handle_message json op_json s j ≡ ok (s', event)
      → s'.subscription_request ≡ s.subscription_request
  unfolding handle_message
  handle_message-request s s' j event h = elim (Bool-cases (json.is_object j)) [
    | inr o ↦ cc (rw o at h)
    | inl o ↦ elim (Bool-cases (json.contains j (codes "event"))) [
      | inl c ↦ elim (Result-cases (handle_control_event json op_json s j)) [
        | inr (e, q) ↦ cc (rw (o, c, q) at h)
        | inl (u, q) ↦
            let given : ◌≡◌ {A = Result (Session × Option (DataEvent J))} (ok (u, none))
                (ok (s', event)) =
              rw (o, c, q) at h in
            let e : u ≡ s' = cc in
            ap (λ x. x.subscription_request) (sym e) ∙ handle_control_event-request s u j q
      ]
      | inr c ↦ elim (Result-cases (data_event_from_json json j)) [
        | inl (d, q) ↦ cc (rw (o, c, q) at h)
        | inr (e, q) ↦ elim (Bool-cases (is_undefined e)) [
          | inl u ↦ cc (rw (o, c, q, u) at h)
          | inr u ↦ cc (rw (o, c, q, u) at h)
        ]
      ]
    ]
  ]
