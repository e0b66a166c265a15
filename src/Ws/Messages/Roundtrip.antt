-- ===== src/Ws/Messages/Roundtrip.antt =====
-- A subscription survives its JSON text.
use okx_cpp_api.Prelude.{◌≡◌, refl, sym, ap, ◌∙◌, ◌≢◌, true, Bytes, codes}
use okx_cpp_api.Result.{Result, ok, ◌>>=◌}
use okx_cpp_api.Json.{JsonLibrary, IsJson, is_ascii}
use okx_cpp_api.Ws.Messages.{
  new_subscription, WsSubscription, subscription_to_json, subscription_from_json,
}

-- A subscription with texts that are UTF-8, which alone can be dumped.
abbrev pub IsDumped : {J : Type 0} → JsonLibrary J → WsSubscription → Type 0
IsDumped json s = (json.is_utf8 s.channel ≡ true) × (json.is_utf8 s.inst_id ≡ true)

module _ {J : Type 0} (json : JsonLibrary J) (laws : IsJson json) where
  open json use {parse, dump, read_text, text, object}
  open laws use {parse-dump, read_first, read_second, ascii-is_utf8}

  keys_differ : codes "instId" ≢ codes "channel"
  keys_differ e = cc

  pub from_json-to_json :
      (s d : WsSubscription) → subscription_from_json json d (subscription_to_json json s) ≡ ok s
  unfolding subscription_from_json subscription_to_json
  from_json-to_json s d = rw (
    read_first (codes "channel") (codes "instId") s.channel d.channel (text s.inst_id) keys_differ,
    read_second (codes "channel") (codes "instId") s.inst_id d.inst_id (text s.channel) keys_differ,
  )

  pub parse-dumped :
      (s : WsSubscription)
      → IsDumped json s
      → parse (dump (subscription_to_json json s)) ≡ ok (subscription_to_json json s)
  unfolding subscription_to_json is_ascii
  parse-dumped s (channel, inst_id) =
      parse-dump (codes "channel") (codes "instId") s.channel s.inst_id
        (ascii-is_utf8 (codes "channel") refl) (ascii-is_utf8 (codes "instId") refl) channel inst_id

  abbrev read_back : Bytes → Result WsSubscription
  read_back b = parse b >>= subscription_from_json json new_subscription

  read_back-dump :
      (s : WsSubscription) → IsDumped json s → read_back (dump (subscription_to_json json s)) ≡ ok s
  read_back-dump s h = rw (parse-dumped s h) (from_json-to_json s new_subscription)

  same_text :
      (s t : WsSubscription)
      → IsDumped json s
      → IsDumped json t
      → dump (subscription_to_json json s) ≡ dump (subscription_to_json json t)
      → s ≡ t
  same_text s t h k e =
      let r : ok s ≡ ok t = sym (read_back-dump s h) ∙ (ap read_back e ∙ read_back-dump t k) in cc r

  -- The dumped JSON of a subscription whose texts are UTF-8 parses, and reads back as that subscription into
  -- whatever subscription it is read; so two such subscriptions with one text are one.
  pub subscription_roundtrip :
      ((s d : WsSubscription)
        → IsDumped json s
        → (parse (dump (subscription_to_json json s)) >>= subscription_from_json json d) ≡ ok s)
      × ((s t : WsSubscription)
          → IsDumped json s
          → IsDumped json t
          → dump (subscription_to_json json s) ≡ dump (subscription_to_json json t)
          → s ≡ t)
  subscription_roundtrip =
      (λ s d h. rw (parse-dumped s h) (from_json-to_json s d), λ s t h k e. same_text s t h k e)
