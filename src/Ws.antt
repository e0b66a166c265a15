-- ===== src/Ws.antt =====
-- The web socket side: messages (src/okx_event_models.cpp), the session (src/okx_ws_session.cpp),
-- the client (src/okx_ws_client.cpp) and the stream manager (src/okx_ws_stream_manager.cpp).
pub mod Messages
pub mod Session
pub mod Streams
pub mod Feed
pub mod Client
