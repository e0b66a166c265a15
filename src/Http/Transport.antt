-- ===== src/Http/Transport.antt =====
-- `HTTPSession::P::request` of src/okx_http_session.cpp, on what the steps of OpenSSL, Asio and Beast
-- give. It is a `Network`, as the other calls of the session take it.
use okx_cpp_api.Prelude.{Bytes}
use okx_cpp_api.Result.{Result, ok, ◌>>=◌}
use okx_cpp_api.Http.{Network, Request, Response}

-- Each step for the host of the session, but for the last three: they work on a connected stream.
-- `S` is the stream; `shutdown` gives the error code, which the caller does not look at.
pub record Transport (S : Type 0) : Type 0 where
  pub set_host_name : Bytes → Result S
  pub resolve : Bytes → S → Result S
  pub connect : S → Result S
  pub handshake : S → Result S
  pub write : S → Request → Result S
  pub read : S → Result (S × Response)
  pub shutdown : S → Result S

-- The response is given whatever the shutdown does.
after_shutdown : {S : Type 0} → Response → Result S → Result Response
after_shutdown response _ = ok response

-- `HTTPSession::P::request`, once the host and the agent are set in the request.
pub request : {S : Type 0} → Transport S → Network
unfolding after_shutdown
request transport uri req = do
  named ← transport.set_host_name uri
  resolved ← transport.resolve uri named
  connected ← transport.connect resolved
  shaken ← transport.handshake connected
  sent ← transport.write shaken req
  answer ← transport.read sent
  after_shutdown answer.1 (transport.shutdown answer.0)
