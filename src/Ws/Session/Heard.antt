-- ===== src/Ws/Session/Heard.antt =====
-- The data events in the messages that a session reads.
use okx_cpp_api.Prelude.{
  ◌≡◌, refl, inl, inr, Bool, true, false, Option, none, some, List, [], ◌∷◌, ◌++◌, if◌then◌else◌,
  Bool-cases, Bytes, codes,
}
use okx_cpp_api.Result.{Error, is_undefined, ok, err, Result-cases}
use okx_cpp_api.Enums.{OperationType}
use okx_cpp_api.Json.{JsonLibrary}
use okx_cpp_api.Ws.Messages.{DataEvent, data_event_from_json}
use okx_cpp_api.Ws.Session.{
  failed, Session, Action, on_read, handle_message, next_action, handle_control_event,
}

module _ {J : Type 0} (json : JsonLibrary J) where
  -- The data event that is in a message, if it is one that can be read.
  unfoldable pub event_of : J → Option (DataEvent J)
  event_of j =
      if json.is_object j
      then if json.contains j (codes "event")
        then none
        else elim (data_event_from_json json j) [ ok e ↦ some e | err e ↦ none ]
      else none

  abbrev pub list_of : {A : Type 0} → Option A → List A
  list_of none = []
  list_of (some a) = a ∷ []

  unfoldable pub event_in : Bytes → Option (DataEvent J)
  event_in message = elim (json.parse message) [ ok j ↦ event_of j | err e ↦ none ]

  -- The data events in a sequence of messages.
  unfoldable pub events_in : List Bytes → List (DataEvent J)
  events_in [] = []
  events_in (message ∷ messages) = list_of (event_in message) ++ events_in messages

  module _ (op_json : OperationType → J) where
    handle_message-event :
        (s s' : Session) (j : J) (event : Option (DataEvent J))
        → handle_message json op_json s j ≡ ok (s', event)
        → event_of j ≡ event
    unfolding event_of handle_message
    handle_message-event s s' j event h = elim (Bool-cases (json.is_object j)) [
      | inr o ↦ cc (rw o at h)
      | inl o ↦ elim (Bool-cases (json.contains j (codes "event"))) [
        | inl c ↦ elim (Result-cases (handle_control_event json op_json s j)) [
          | inr (e, q) ↦ cc (rw (o, c, q) at h)
          | inl (u, q) ↦ cc (rw (o, c, q) at h)
        ]
        | inr c ↦ elim (Result-cases (data_event_from_json json j)) [
          | inl (d, q) ↦ cc (rw (o, c, q) at h)
          | inr (e, q) ↦ elim (Bool-cases (is_undefined e)) [
            | inl u ↦ cc (rw (o, c, q, u) at h)
            | inr u ↦ cc (rw (o, c, q, u) at h)
          ]
        ]
      ]
    ]

    -- A handler that does not close the socket by an exception of the JSON library, nor ends in undefined
    -- behaviour.
    abbrev pub reads_on : Action → Bool
    reads_on Action.close = false
    reads_on Action.undefined_behaviour = false
    reads_on _ = true

    failed-ends : (e : Error) → reads_on (failed e) ≡ false
    unfolding failed
    failed-ends e = elim (Bool-cases (is_undefined e)) [
      | inl h ↦ rw (failed, h) refl
      | inr h ↦ rw (failed, h) refl
    ]

    pub on_read-event :
        (s : Session) (message : Bytes)
        → let (s', event, action) = on_read json op_json s message in
          reads_on action ≡ true → event_in message ≡ event
    unfolding on_read event_in
    on_read-event s message h = elim (Result-cases (json.parse message)) [
      | inr (e, q) ↦ let k = failed-ends e in cc (rw (on_read, q) at h)
      | inl (j, q) ↦ elim (Result-cases (handle_message json op_json s j)) [
        | inr (e, y) ↦ let k = failed-ends e in cc (rw (on_read, q, y) at h)
        | inl ((s', event), y) ↦ elim (Result-cases (next_action json op_json s')) [
          | inr (e, z) ↦ let k = failed-ends e in cc (rw (on_read, q, y, z) at h)
          | inl ((s2, action), z) ↦
              rw (on_read, q, y, z) (rw (event_in, q) (handle_message-event s s' j event y))
        ]
      ]
    ]
