-- ===== src/Ws/Session/Connection/Examples.antt =====
-- A connection that is opened, over the packed JSON of the examples.
use okx_cpp_api.Prelude.{◌+◌, ◌≤◌, refl, true, false, [], ◌∷◌, Bytes, codes}
use okx_cpp_api.Enums.{OperationType}
use okx_cpp_api.Json.Packed.{packed}
use okx_cpp_api.Ws.Messages.{WsSubscription, subscription_to_json, DataEvent}
use okx_cpp_api.Ws.Session.{new_session}
use okx_cpp_api.Ws.Session.Connection.{
  resolving, connecting, ssl_handshaking, Connection, Running, started, complete, Reach, here, next,
  resolved, connected, on_resolve, on_connect,
}
use okx_cpp_api.Ws.Session.Connection.Chain.{total, stream, reads, writes, waits, Reach-single}

abbrev op_text : OperationType → Bytes
op_text OperationType.subscribe = codes "subscribe"
op_text OperationType.unsubscribe = codes "unsubscribe"

abbrev first : Running packed op_text
first = started packed op_text new_session (codes "h") (codes "r")

abbrev found : Running packed op_text
found = record first { pending = connecting ∷ [] }

abbrev connection_done : Running packed op_text
connection_done = record {
  connection = record (first.connection) { host = codes "h:8443" };
  pending = ssl_handshaking ∷ [];
}

two_steps : Reach packed op_text first connection_done
unfolding on_resolve on_connect
two_steps =
    next {t = found}
      (next here
        (complete [] [] resolving (connecting ∷ []) refl (resolved first.connection false) refl))
      (complete [] [] connecting (ssl_handshaking ∷ []) refl
        (connected first.connection false true (codes "8443")) refl)

Reach-single_example :
    (total stream (ssl_handshaking ∷ []) ≤ 1)
    × (total reads (ssl_handshaking ∷ []) + total writes (ssl_handshaking ∷ []) ≤ 1)
    × (total waits (ssl_handshaking ∷ []) ≤ 1)
Reach-single_example =
    Reach-single packed op_text new_session (codes "h") (codes "r") connection_done two_steps

abbrev bitcoin : WsSubscription
bitcoin = record { channel = codes "tickers"; inst_id = codes "BTC" }

abbrev waiting : Connection
waiting = record {
  session = record {
    subscriptions = codes "x" ∷ [];
    subscription_request = packed.dump (subscription_to_json packed bitcoin);
  };
  host = codes "h";
  last_ping_time = 0;
  last_pong_time = 0;
}

-- A ticker event comes in while the request waits.
abbrev ticker_message : Bytes
ticker_message = packed.object (
    (
      codes "arg",
      packed.object ((codes "channel", codes "tickers") ∷ (codes "instId", codes "ETH") ∷ []),
    )
    ∷ (codes "data", codes "d")
    ∷ [])

abbrev ticker_event : DataEvent Bytes
ticker_event = record { channel = codes "tickers"; inst_id = codes "ETH"; payload = codes "d" }
