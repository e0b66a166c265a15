-- ===== src/Ws/Session/Requests.antt =====
-- The one request that may wait.
use okx_cpp_api.Prelude.{◌≡◌, refl, ap, ◌∙◌, false, List, [], ◌∷◌, arith, is_empty, Bytes}
use okx_cpp_api.Result.{ok}
use okx_cpp_api.Enums.{OperationType}
use okx_cpp_api.Json.{JsonLibrary, IsJson}
use okx_cpp_api.Ws.Messages.{WsSubscription, new_subscription, subscription_to_json}
use okx_cpp_api.Ws.Messages.Roundtrip.{IsDumped, parse-dumped, from_json-to_json}
use okx_cpp_api.Ws.Session.{
  Session, contains_text, write_subscription_request, request_text, read_subscription_request,
}

pub write_all : Session → List Bytes → Session
write_all s [] = s
write_all s (r ∷ rs) = write_all (write_subscription_request s r) rs

write_all-subscriptions :
    (s : Session) (rs : List Bytes) → (write_all s rs).subscriptions ≡ s.subscriptions
unfolding write_all write_subscription_request
write_all-subscriptions s [] = refl
write_all-subscriptions s (r ∷ rs) =
    ground (arith, write_all-subscriptions (write_subscription_request s r) rs)

write_fresh :
    (u s : Session) (t : Bytes)
    → u.subscriptions ≡ s.subscriptions
    → contains_text s.subscriptions t ≡ false
    → write_subscription_request u t ≡ record s { subscription_request = t }
unfolding write_subscription_request
write_fresh u s t e h = rw (e, h)

module _ {J : Type 0} (json : JsonLibrary J) (op_json : OperationType → J)
    (laws : IsJson json) where
  pub read_written :
      (s : Session) (wanted : WsSubscription)
      → let t = json.dump (subscription_to_json json wanted) in
        IsDumped json wanted
        → is_empty t ≡ false
        → read_subscription_request json op_json (record s { subscription_request = t })
          ≡ ok (record s { subscription_request = [] }, request_text json op_json wanted)
  unfolding read_subscription_request
  read_written s wanted utf8 h =
      rw
        (h, parse-dumped json laws wanted utf8, from_json-to_json json laws wanted new_subscription)

  read_none :
      (s : Session)
      → let left = record s { subscription_request = [] } in
        read_subscription_request json op_json left ≡ ok (left, [])
  unfolding read_subscription_request
  read_none s = refl

  -- However many requests were handed to a session before, if its subscription has texts that are UTF-8, and
  -- its text is not empty and not confirmed yet, the last one alone is written: the request for its subscription, after which none waits, so
  -- that the next reading gives no text.
  pub last_request_wins :
      (s : Session) (earlier : List Bytes) (wanted : WsSubscription)
      → let t = json.dump (subscription_to_json json wanted) in
        IsDumped json wanted
        → is_empty t ≡ false
        → contains_text s.subscriptions t ≡ false
        → let pending = write_subscription_request (write_all s earlier) t in
          let left = record s { subscription_request = [] } in
          (read_subscription_request json op_json pending
            ≡ ok (left, request_text json op_json wanted))
          × (read_subscription_request json op_json left ≡ ok (left, []))
  last_request_wins s earlier wanted utf8 full fresh =
      let t = json.dump (subscription_to_json json wanted) in
      (
        ap (read_subscription_request json op_json)
              (write_fresh (write_all s earlier) s t (write_all-subscriptions s earlier) fresh)
            ∙ read_written s wanted utf8 full,
        read_none s,
      )
