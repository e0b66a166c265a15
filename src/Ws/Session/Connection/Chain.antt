-- ===== src/Ws/Session/Connection/Chain.antt =====
-- How many operations may be outstanding.
use okx_cpp_api.Prelude.{
  ℕ, ◌+◌, ◌≤◌, ◌≡◌, refl, ap, inl, inr, Bool, true, false, Option, none, some, List, [], ◌∷◌, ◌++◌,
  arith, Bytes,
}
use okx_cpp_api.Result.{Result-cases}
use okx_cpp_api.Enums.{OperationType}
use okx_cpp_api.Json.{JsonLibrary}
use okx_cpp_api.Ws.Session.{Session, Action, read_subscription_request}
use okx_cpp_api.Ws.Session.Connection.{
  Operation, resolving, connecting, ssl_handshaking, handshaking, writing, reading, timing, pinging,
  closing, close_ws, Connection, on_resolve, on_connect, on_ssl_handshake, on_write, on_ping_timer,
  begun, on_handshake, on_read_done, Completes, resolved, connected, ssl_shaken, shaken, written,
  received, rung, pinged, closed, Running, started, Step, complete, ask, shut, pong, Reach, here,
  next,
}

pub total : (Operation → ℕ) → List Operation → ℕ
total w [] = 0
total w (op ∷ ops) = w op + total w ops

pub total-append :
    (w : Operation → ℕ) (xs ys : List Operation) → total w (xs ++ ys) ≡ total w xs + total w ys
unfolding total
total-append w [] ys = omega arith
total-append w (x ∷ xs) ys = omega (arith, total-append w xs ys)

-- The operations that open the connection or use the stream for messages.
abbrev pub stream : Operation → ℕ
stream timing = 0
stream pinging = 0
stream closing = 0
stream _ = 1

-- Those that use it to read, and to write.
abbrev pub reads : Operation → ℕ
reads reading = 1
reads _ = 0

abbrev pub writes : Operation → ℕ
writes (writing text) = 1
writes _ = 0

-- The wait on the ping timer, and what comes before it.
abbrev pub timer : Operation → ℕ
timer resolving = 1
timer connecting = 1
timer ssl_handshaking = 1
timer handshaking = 1
timer timing = 1
timer _ = 0

abbrev pub waits : Operation → ℕ
waits timing = 1
waits _ = 0

total_cons :
    (w : Operation → ℕ) (op : Operation) (ops : List Operation)
    → total w (op ∷ ops) ≡ w op + total w ops
unfolding total
total_cons w op ops = refl

one_kind : (op : Operation) → (reads op + writes op ≤ stream op) × (waits op ≤ timer op)
one_kind resolving = omega arith
one_kind (writing text) = omega arith
one_kind _ = omega arith

reads-writes-le : (ops : List Operation) → total reads ops + total writes ops ≤ total stream ops
unfolding total
reads-writes-le [] = omega arith
reads-writes-le (op ∷ ops) = omega (arith, (one_kind op).0, reads-writes-le ops)

waits-le : (ops : List Operation) → total waits ops ≤ total timer ops
unfolding total
waits-le [] = omega arith
waits-le (op ∷ ops) = omega (arith, (one_kind op).1, waits-le ops)

begun-stream : (a : Action) → total stream (begun a) ≤ 1
unfolding total
begun-stream (Action.write text) = omega arith
begun-stream _ = omega arith

begun-timer : (a : Action) → total timer (begun a) ≡ 0
unfolding total
begun-timer (Action.write text) = refl
begun-timer _ = refl

abbrev pub Fits : Operation → List Operation → Type 0
Fits op new = (total stream new ≤ stream op) × (total timer new ≤ timer op)

module _ {J : Type 0} (json : JsonLibrary J) (op_json : OperationType → J) where
  on_handshake-Fits :
      (c : Connection) (failed : Bool) → Fits handshaking (on_handshake json op_json c failed).1
  unfolding on_handshake total
  on_handshake-Fits c true = omega arith
  on_handshake-Fits c false =
      elim (Result-cases (read_subscription_request json op_json c.session)) [
        | inl ((s, text), e) ↦ rw (e, on_handshake) (omega arith)
        | inr (x, e) ↦ rw (e, on_handshake) (omega arith)
      ]

  on_read_done-Fits :
      (c : Connection) (m : Option Bytes) → Fits reading (on_read_done json op_json c m).1
  unfolding on_read_done total
  on_read_done-Fits c none = omega arith
  on_read_done-Fits c (some m) = (begun-stream _, omega (arith, begun-timer _))

  -- No handler begins more than its own operation leaves room for.
  Completes-Fits :
      {op : Operation} {c c' : Connection} {new : List Operation}
      → Completes json op_json op c c' new
      → Fits op new
  unfolding on_resolve on_connect on_ssl_handshake on_write on_ping_timer total
  Completes-Fits (resolved c failed) = ground arith
  Completes-Fits (connected c failed sni port) = ground arith
  Completes-Fits (ssl_shaken c failed) = ground arith
  Completes-Fits (shaken c failed) = on_handshake-Fits c failed
  Completes-Fits (written c text failed) = ground arith
  Completes-Fits (received c m) = on_read_done-Fits c m
  Completes-Fits (rung c failed is_open) = ground arith
  Completes-Fits (pinged c failed now) = omega arith
  Completes-Fits (closed c) = omega arith

  abbrev pub IsSingle : List Operation → Type 0
  IsSingle ops = (total stream ops ≤ 1) × (total timer ops ≤ 1)

  total_exchanged :
      (w : Operation → ℕ) (s t before after : List Operation) (op : Operation)
      (new : List Operation)
      → s ≡ before ++ (op ∷ after)
      → t ≡ before ++ (after ++ new)
      → total w new ≤ w op
      → total w t ≤ total w s
  total_exchanged w s t before after op new p q h = omega (
    arith,
    ap (total w) p,
    ap (total w) q,
    total-append w before (op ∷ after),
    total-append w before (after ++ new),
    total-append w after new,
    total_cons w op after,
  )

  Step-IsSingle :
      {s t : Running json op_json} → Step json op_json s t → IsSingle s.pending → IsSingle t.pending
  unfolding total
  Step-IsSingle {s} {t} (complete before after op new p done q) (a, b) =
      let (fits_stream, fits_timer) = Completes-Fits done in
      let c = total_exchanged stream s.pending t.pending before after op new p q fits_stream in
      let d = total_exchanged timer s.pending t.pending before after op new p q fits_timer in
      omega arith
  Step-IsSingle (ask request e p) h = rw p h
  Step-IsSingle {s} {t} (shut e p) (a, b) = omega (
    arith,
    a,
    b,
    ap (total stream) p,
    ap (total timer) p,
    total-append stream s.pending close_ws,
    total-append timer s.pending close_ws,
  )
  Step-IsSingle (pong now e p) h = rw p h

  Reach-IsSingle :
      {s t : Running json op_json}
      → IsSingle s.pending
      → Reach json op_json s t
      → IsSingle t.pending
  Reach-IsSingle h here = h
  Reach-IsSingle h (next r st) = Step-IsSingle st (Reach-IsSingle h r)

  -- However the operations of a session complete, in whatever order, with errors or without, and
  -- whatever is asked of it from outside, at most one operation that opens the connection, reads or
  -- writes is outstanding at a time, so never two reads, nor a read beside a write; and at most one
  -- wait on the ping timer.
  pub Reach-single :
      (s : Session) (host request : Bytes) (t : Running json op_json)
      → Reach json op_json (started json op_json s host request) t
      → (total stream t.pending ≤ 1)
        × (total reads t.pending + total writes t.pending ≤ 1)
        × (total waits t.pending ≤ 1)
  unfolding total
  Reach-single s host request t r =
      let (a, b) = Reach-IsSingle (omega arith) r in
      omega (arith, reads-writes-le t.pending, waits-le t.pending)
