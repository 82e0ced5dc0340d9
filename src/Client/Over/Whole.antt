-- ===== src/Client/Over/Whole.antt =====
-- A request of src/lib.rs by the connector that `HttpsConnector::new` makes, from the name of the
-- host to the response.
use simple_http.Base.{ℕ, List, Outcome, Build}
use simple_http.Base.Bytes.{Bytes}
use simple_http.Base.Text.{Unicode}
use simple_http.Uri.{HttpTypes}
use simple_http.Io.{IoError, IoResult}
use simple_http.Io.Streams.{StreamCalls}
use simple_http.Request.{Request}
use simple_http.Response
use simple_http.Body
use simple_http.Http.Dns.{AddrText}
use simple_http.Http.Tcp
use simple_http.Http.Tcp.{TcpIo}
use simple_http.Http.Connecting.{Resolve, SocketIo, http_connector}
use simple_http.Https.Tls
use simple_http.Https.Tls.{Native, Provided}
use simple_http.Https.Client.{TlsClient, https_connector}
use simple_http.Https.Default.{base, Whole, WholeStream}
use simple_http.Client
use simple_http.Client.{Client}
use simple_http.Client.Over.{TokioIo, over, request_by}

module _ (h : HttpTypes) (t : TcpIo) (k : SocketIo t) (r : Resolve)
    (calls : StreamCalls t.TcpStream) (n : Native (base h t k r calls))
    (c : TlsClient (base h t k r calls) n) (text : AddrText) (now : t.Instant) (provided : Provided)
    (w : TokioIo (WholeStream h t k r calls n c text now provided)) where
  -- the client of a connector, its TCP connections and handshakes polled so many times at most
  abbrev pub request_whole :
      ℕ
      → ℕ
      → Client (Whole h t k r calls n c)
      → Unicode
      → Build
      → Bytes
      → Request h (List (IoResult Bytes))
      → Outcome IoError
          (Response.Response h (Body.Body (WholeStream h t k r calls n c text now provided)))
  request_whole tcp_polls tls_polls = request_by h (over w) (
      https_connector (base h t k r calls) n c h provided
        (http_connector h t k r text now tcp_polls) tls_polls)
