-- ===== src/Ws/Session/Connection.antt =====
-- src/okx_ws_session.cpp: the handlers of a connection, from the resolver to the ping timer. A handler
-- gives the operations of Asio and Beast that it begins. An operation that is outstanding completes at
-- some time, with an error or without, and calls its handler: that is a step.
pub mod Chain
pub mod Waiting
mod Examples
use okx_cpp_api.Prelude.{
  ℕ, ◌+◌, ◌≡◌, Bool, not, Option, none, some, List, [], ◌∷◌, ◌++◌, ltb, if◌then◌else◌, Bytes, codes,
}
use okx_cpp_api.Result.{ok, err}
use okx_cpp_api.Enums.{OperationType}
use okx_cpp_api.Json.{JsonLibrary}
use okx_cpp_api.Ws.Session.{
  Session, Action, write_subscription_request, read_subscription_request, on_read,
}

-- The operations that are begun: `async_resolve`, `async_connect`, the two `async_handshake`s,
-- `async_write`, `async_read`, `async_wait` of the ping timer, `async_ping` and `async_close`.
pub data Operation : Type 0 where
  resolving connecting ssl_handshaking handshaking : Operation
  writing : Bytes → Operation
  reading timing pinging closing : Operation

-- The fields of `WebSocketSession::P` that the handlers use; times are milliseconds.
pub record Connection : Type 0 where
  pub session : Session
  pub host : Bytes
  pub last_ping_time : ℕ
  pub last_pong_time : ℕ

-- `onResolve`; `failed` says that the error code is set.
pub on_resolve : Bool → List Operation
on_resolve failed = if failed then [] else connecting ∷ []

-- `onConnect`; `sni` is what `SSL_set_tlsext_host_name` returns, `port` the text of the port.
pub on_connect : Connection → Bool → Bool → Bytes → Connection × List Operation
on_connect c failed sni port =
    if failed
    then (c, [])
    else if not sni
    then (c, [])
    else (record c { host = c.host ++ (codes ":" ++ port) }, ssl_handshaking ∷ [])

-- `onSSLHandshake`.
pub on_ssl_handshake : Bool → List Operation
on_ssl_handshake failed = if failed then [] else handshaking ∷ []

-- `onWrite`.
pub on_write : Bool → List Operation
on_write failed = if failed then [] else reading ∷ []

-- The test of `ping` for its warning; `PING_INTERVAL_IN_S` is 20.
pub ping_expired : Connection → Bool
ping_expired c = ltb (c.last_pong_time + 20000) c.last_ping_time

-- `ping`, on a socket that is open or not, and `onPingTimer`.
pub ping : Bool → List Operation
ping is_open = if is_open then pinging ∷ [] else []

pub on_ping_timer : Bool → Bool → List Operation
unfolding ping
on_ping_timer failed is_open = if failed then [] else ping is_open ++ (timing ∷ [])

-- What the callback of `async_ping` and the control callback note.
pub on_ping : Connection → Bool → ℕ → Connection
on_ping c failed now = if failed then c else record c { last_ping_time = now }

-- `closeWs`, which `WebSocketSession::close` calls as well.
abbrev pub close_ws : List Operation
close_ws = closing ∷ []

-- The operations that a finished `onRead` begins; behind undefined behaviour nothing is known, and none is.
abbrev pub begun : Action → List Operation
begun (Action.write text) = writing text ∷ []
begun Action.read = reading ∷ []
begun Action.close_and_read = close_ws ++ (reading ∷ [])
begun Action.close = closing ∷ []
begun Action.undefined_behaviour = []

module _ {J : Type 0} (json : JsonLibrary J) (op_json : OperationType → J) where
  -- `onHandshake`. An exception of `readSubscriptionRequest` leaves the handler; the wait on the timer
  -- is begun by then.
  unfoldable pub on_handshake : Connection → Bool → Connection × List Operation
  on_handshake c failed =
      if failed then (c, []) else elim (read_subscription_request json op_json c.session) [
        | ok (s, text) ↦ (record c { session = s }, timing ∷ writing text ∷ [])
        | err e ↦ (c, timing ∷ [])
      ]

  -- `onRead`; `none` stands for an error code.
  unfoldable pub on_read_done : Connection → Option Bytes → Connection × List Operation
  on_read_done c none = (c, [])
  on_read_done c (some message) =
      let (s, event, action) = on_read json op_json c.session message in
      (record c { session = s }, begun action)

  -- An operation completes: the connection before and after its handler, and what the handler begins.
  pub data Completes : Operation → Connection → Connection → List Operation → Type 0 where
    resolved : (c : Connection) (failed : Bool) → Completes resolving c c (on_resolve failed)
    connected :
        (c : Connection) (failed sni : Bool) (port : Bytes)
        → Completes connecting c (on_connect c failed sni port).0 (on_connect c failed sni port).1
    ssl_shaken :
        (c : Connection) (failed : Bool) → Completes ssl_handshaking c c (on_ssl_handshake failed)
    shaken :
        (c : Connection) (failed : Bool)
        → Completes handshaking c (on_handshake c failed).0 (on_handshake c failed).1
    written :
        (c : Connection) (text : Bytes) (failed : Bool)
        → Completes (writing text) c c (on_write failed)
    received :
        (c : Connection) (message : Option Bytes)
        → Completes reading c (on_read_done c message).0 (on_read_done c message).1
    rung :
        (c : Connection) (failed is_open : Bool)
        → Completes timing c c (on_ping_timer failed is_open)
    pinged :
        (c : Connection) (failed : Bool) (now : ℕ) → Completes pinging c (on_ping c failed now) []
    closed : (c : Connection) → Completes closing c c []

  -- A session that runs: its state, and the operations that are outstanding.
  pub record Running : Type 0 where
    pub connection : Connection
    pub pending : List Operation

  -- `WebSocketSession::run`, after its test for an empty request.
  abbrev pub started : Session → Bytes → Bytes → Running
  started s host request = record {
    connection = record {
      session = write_subscription_request s request;
      host = host;
      last_ping_time = 0;
      last_pong_time = 0;
    };
    pending = resolving ∷ [];
  }

  -- A step: an outstanding operation completes, another thread asks for a subscription or closes the
  -- session, or a pong is noted.
  pub data Step (s : Running) (t : Running) : Type 0 where
    complete :
        (before after : List Operation) (op : Operation) (new : List Operation)
        → s.pending ≡ before ++ (op ∷ after)
        → Completes op s.connection t.connection new
        → t.pending ≡ before ++ (after ++ new)
        → Step s t
    ask :
        (request : Bytes)
        → t.connection ≡ record (s.connection) {
          session = write_subscription_request s.connection.session request;
        }
        → t.pending ≡ s.pending
        → Step s t
    shut : t.connection ≡ s.connection → t.pending ≡ s.pending ++ close_ws → Step s t
    pong :
        (now : ℕ)
        → t.connection ≡ record (s.connection) { last_pong_time = now }
        → t.pending ≡ s.pending
        → Step s t

  pub data Reach (s : Running) : Running → Type 0 where
    here : Reach s s
    next : {t u : Running} → Reach s t → Step t u → Reach s u
