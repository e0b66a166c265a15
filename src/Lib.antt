-- ===== src/Lib.antt =====
-- okx_cpp_api: a C++ client of the OKX exchange. A program asks the REST interface for data or
-- trades (include/stonky/okx/okx_rest_client.h), downloads files of candles, and reads streams of
-- tickers and candles over a web socket (include/stonky/okx/okx_ws_stream_manager.h).
--
-- The parts, and the files here that model them:
--   Enums, Okx: the enumerations and their names (include/stonky/okx/okx_enums.h), and the bar sizes
--     (src/okx.cpp).
--   RateLimiter: `RateLimiter::wait` (src/okx_rest_client.cpp). The deque of times is a list with its
--     front first; a call takes the clock, and gives the limiter and the recorded time.
--   Http: query strings, signed requests and URLs, and in Http.Transport the steps of a request
--     (src/okx_http_session.cpp).
--   History: the paged loops `getHistoricalPrices` and `getFundingRates` (src/okx_rest_client.cpp).
--   Rest: the state of `RESTClient`, its other calls, and in Rest.Files the download of candle files
--     (src/okx_rest_client.cpp). It calls Http for a request, RateLimiter before some of them, and Csv
--     for the candles of a file. Rest.Readings says what each call reads of a body, and Rest.Pages
--     runs the loops on the client, whose limiter each page of candles changes, against an exchange
--     that reads the parameters of each request (Rest.Pages.Exchange). Rest.Usage runs any sequence
--     of calls on one client.
--   Csv: `parseCandlesCsv` and `parseFundingRateCsv` (src/okx_market_data_utils.cpp), on bytes.
--   Zip: `extractZip` (src/okx_market_data_utils.cpp), which a download calls before Csv.
--   Models: the records of src/okx_models.cpp and include/stonky/okx/okx_models.h with their readers,
--     in Models.Base what they share, in Models.Market, Models.Instruments, Models.Account,
--     Models.Positions, Models.Orders and Models.Archive the records themselves, in Models.Unwritten
--     the conversions that throw. Json, Models.Base and Models.Laws hold
--     nlohmann::json and its helpers as an interface, Models.Tree an instance of it. Result: the
--     exceptions as values.
--   Connector: the polling of tasks and the worker thread of src/okx_futures_exchange_connector.cpp,
--     which call Rest, and in Connector.Factory the module factory
--     (include/stonky/okx/okx_futures_exchange_connector.h).
--   Ws.Messages, Ws.Session, Ws.Client, Ws.Streams: the messages (src/okx_event_models.cpp), the
--     session (src/okx_ws_session.cpp), the client (src/okx_ws_client.cpp) and the stream manager
--     (src/okx_ws_stream_manager.cpp). The stream manager asks the client, which keeps one session;
--     the session writes the requests and hands data events to the callback of the stream manager,
--     which fills the tables that its readers wait on. Ws.Session.Connection is the relation of the
--     handlers: a step is an outstanding operation that completes. Ws.Client.Confirmed
--     follows a subscribing from the call to the confirmation. Ws.Client.Thread is the thread that
--     completes the operations, and the destructor that stops it. Ws.Feed joins the session, the
--     callback and the tables: what messages do, and what a reader that waits meanwhile sees.
--   Prelude: what the modules share. A module named Examples runs the definitions on small inputs.
--
-- Texts are lists of bytes, and those that are dumped as JSON are UTF-8, as `dump` throws on others.
-- Integers are unbounded: time stamps are far from the ends of
-- `int64_t`, but for a number in a file, which is refused if it is too large, and
-- the number of tries of a reader, which is undefined behaviour if it is. Exceptions are the
-- error side of `Result`, undefined behaviour is a value of its own. A paged loop runs on fuel, one
-- unit a round; a history as long as the fuel is served in full, since each round brings at least one
-- item. The waiting readers make at most as many tries as the timeout gives.
--
-- The polling loop of the connector runs on fuel as well, one unit a pass, and one pass more than the
-- looks that the slowest task needs is enough.
--
-- What is called but is no part of the repository is a parameter: the network (Asio, Beast,
-- OpenSSL), the HMAC and its base64 text, the clock, nlohmann::json, magic_enum, the decimals of
-- boost, minizip, and the readers and `isReady` of the stonky-cpp-common submodule. Not modelled are
-- races between threads, whose steps are taken one after another, time limits of sockets, what is
-- logged (but whether a logger is set), and the test program.
pub mod Prelude
pub mod Enums
pub mod Okx
pub mod RateLimiter
pub mod Result
pub mod Http
pub mod Models
pub mod History
pub mod Csv
pub mod Json
pub mod Zip
pub mod Connector
pub mod Rest
pub mod Ws
