-- ===== src/Lib.antt =====
-- Verification of simple-http, an asynchronous HTTP client in Rust.
--
-- The program. `Client::request` (src/lib.rs) connects through a connector, writes a request head
-- (`build_req`) and the chunks of the request's body, reads the response head into a buffer of
-- 4096 bytes, parses it (src/httparse.rs) and returns a `Response` (src/response.rs) with a `Body`
-- (src/body.rs) that streams the rest of the connection. Requests are built by src/request.rs.
--
-- The model.
--   Base        outcomes of Rust code (`Ok`, `Err`, panic), builds, `usize`, slices, byte strings,
--               searching, and what is used of `String` and of number parsing
--   Io, Uri     `io::Error`, polls, streams as one interface, and futures that are driven to their
--               value; the crates `http` and `hyper` as a parameter
--   Httparse    src/httparse.rs: `ltrim`, `rtrim`, `parse_header`, `parse_status`, and the iterator
--               of `parse_headers` as `HeaderIter` with the step `next`
--   Body        src/body.rs: `Body::empty`, `Body::new`, `poll_next`; the loop of
--               examples/simple.rs is `collect` in Body/Collect
--   Request     src/request.rs: `Request` and `RequestBuilder`
--   Response    src/response.rs: `HeaderMap` and `Response`
--   Client      src/lib.rs: `build_req` and `request`, each loop a function of its own; Client/Over
--               is `request` over the connector that the client holds, and Client/Download the
--               program of examples/simple.rs
--   Connect     src/connect.rs: `Destination` and its setters
--   Http        src/http: Http/Dns and Http/Gai are dns.rs, with the resolvers `gai` and
--               `threadpool`; Http/Tcp and Http/Connecting are the lower and the upper half of
--               mod.rs (`ConnectingTcp`, `HttpConnector` and `HttpConnecting`), Http/Ares is ares.rs
--               with its cache
--   Https       src/https: Https/Stream and Https/Tls are stream.rs (`MaybeHttpsStream` and
--               `TlsStream`), Https/Client is client.rs (`HttpsConnector` and `Handshaking`) over any
--               connector, and Https/Default its `new` and `new_with_resolver`, over Http/Connecting
--   Proxy       src/proxy: Proxy/Tunnel is tunnel.rs, the CONNECT request and the future `Tunnel`;
--               Proxy/Stream is stream.rs; Proxy/Routing is the choice of a proxy in mod.rs, and
--               Proxy/Connector is `ProxyConnector` with its `connect`
--   Tests       runs on concrete inputs, and an instance of each theorem
-- A connector is a `Connector` (Connect): a function from a destination to what its future gives
-- in the end. `http_connector`, `https_connector` and `proxy_connector` make one of the connectors
-- of src/http, src/https and src/proxy, of which the last two are built over any other. A `Resolve`
-- (Http/Connecting) is what `http_connector` takes of a resolver.
-- Functions keep the names of the source. A method takes its object first and returns the new one.
--
-- Panics and arithmetic. A panic of an index, of `unwrap` or of a subtraction is the outcome
-- `panic`. Integer overflow panics in a debug build and wraps at 2 ^ 64 in a release build, so the
-- functions that subtract take a `Build`.
--
-- Fuel. `rtrim_loop` has one round for each byte and one more; the loop over the parsed lines has
-- one for each byte of the head, since a line takes at least its CRLF; the loop that receives the
-- head has 4097, since a round that goes on fills the buffer by at least one byte. That these
-- suffice is proved. `collect` takes its count of polls from the caller. The loop of
-- `HttpConnecting::poll` has 3 rounds, since its state moves on twice at most; the loop over the
-- addresses is a recursion on their list. The loop of `Tunnel::poll` takes its fuel as an argument:
-- the bytes to write and those that the peer can still send are enough. `drive` polls a future until
-- it is ready, as often as its argument says; a handshake needs as many polls as it blocks, a
-- connection by name one more than the lookup of the name waits, a tunnel one more than its peer
-- stalls, and a connection by the other family of addresses those until the delay has elapsed and
-- the address accepts.
--
-- Not modelled. In Client, transports and body streams are parameters, with `.await` done, but
-- for the polls of `Body`; the combinators of futures in src/https and src/proxy are the
-- sequence of what their parts give. Text that is not ASCII is decoded and lowered by a parameter.
-- Memory limits, and panics inside other crates, are left out. A future carries the answers of its
-- own polls, and the clock is an argument. Formatting for debug output is left out.
mod Base
pub mod Httparse
pub mod Io
pub mod Body
pub mod Uri
pub mod Request
pub mod Response
pub mod Client
pub mod Connect
pub mod Http
pub mod Https
pub mod Proxy
mod Tests
