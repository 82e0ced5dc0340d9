-- ===== src/Tests/Clients.antt =====
-- Requests over the connectors, and instances of the theorems on them.
use simple_http.Base.{
  ℕ, false, none, some, List, [], ◌∷◌, ◌++◌, ◌≡◌, refl, arith, ap, ◌∙◌, inr, length-take, take,
  Outcome, ok, Returns-ok, debug, sym, ok_pair,
}
use simple_http.Base.Bytes.{Bytes, codes}
use simple_http.Base.Search.{position, split, starts_with}
use simple_http.Base.Text.{is_ascii, from_utf8_lossy, to_lowercase, parse_usize}
use simple_http.Io.{IoError, IoResult, ready}
use simple_http.Io.Drive.{drive}
use simple_http.Connect.{scheme, host}
use simple_http.Request.{Request}
use simple_http.Response
use simple_http.Response.{Response}
use simple_http.Body
use simple_http.Body.{Body}
use simple_http.Httparse.{next, parse_line, parse_status, parse_header, parse_headers, rtrim, ltrim}
use simple_http.Client.{
  build, builder, build_req, push_headers, write_body, read_head, add_item, receive, request,
  content_length,
}
use simple_http.Client.Receiving.{TransportLaw}
use simple_http.Client.Sending.{SendLaw}
use simple_http.Client.Exchange.{Exchanged}
use simple_http.Client.Over.{TokioIo, over, dial, request_by}
use simple_http.Client.Over.Ways.{request_by-Secured}
use simple_http.Https.Tls
use simple_http.Https.Tls.{TlsStream, tls_io}
use simple_http.Https.Stream.{MaybeHttpsStream, http, https}
use simple_http.Https.Client
use simple_http.Https.Client.{https_connector, forced_error, from, secure, poll_inner}
use simple_http.Https.Client.Secure.{Secured}
use simple_http.Proxy.Stream.{ProxyStream, regular, secured}
use simple_http.Proxy.Tunnel
use simple_http.Proxy.Connector as Way
use simple_http.Proxy.Connector.{proxy_connector}
use simple_http.Tests.World
use simple_http.Tests.World.{TestUri, unicode}
use simple_http.Tests.Tls.{base, native, client, provided, sockets, connector, session_for_h}
use simple_http.Tests.Tunnels.{Pipe, pipes}
use simple_http.Tests.Ways.{headers, tls, pipe_connector, through_proxy, opened}

abbrev answer : Bytes
answer = codes "HTTP/1.0 200 OK\r\n\r\nhi"

-- A stream that answers each read with the same, by how it keeps what is written.
module _ {S : Type 0} (put : S → Bytes → S) where
  abbrev answering : TokioIo S
  answering = record {
    poll_read = λ s n. (ready (inr (take n answer)), s);
    read = λ s n. ok (take n answer, s);
    write_all = λ s bytes. ok (put s bytes);
  }

  answering-TransportLaw : TransportLaw (over answering)
  answering-TransportLaw = record {
    bounded = λ c n e. ground (arith, length-take n answer);
    read_returns = λ c n. Returns-ok _;
    write_returns = λ c bytes. Returns-ok _;
  }

  written : {c c' : S} → ◌≡◌ {A = Outcome IoError S} (ok c) (ok c') → c' ≡ c
  written e = cc

  answering-SendLaw :
      (sent : S → Bytes)
      → ((s : S) (bytes : Bytes) → sent (put s bytes) ≡ sent s ++ bytes)
      → SendLaw (over answering)
  answering-SendLaw sent h = record {
    sent = sent;
    write_sends = λ c bytes e. ap sent (written e) ∙ h c bytes;
    read_keeps = λ c n e. ap sent (sym (ok_pair e).1);
  }

abbrev Https : Type 0
Https = MaybeHttpsStream base (tls_io base native provided)

abbrev put_https : Https → Bytes → Https
put_https (http s) bytes = http (record s { out = s.out ++ bytes })
put_https (https s) bytes = https (record {
  inner = record s.inner { sock = record s.inner.sock { out = s.inner.sock.out ++ bytes } };
})

abbrev sent_https : Https → Bytes
sent_https (http s) = s.out
sent_https (https s) = s.inner.sock.out

put_https-sent :
    (s : Https) (bytes : Bytes) → sent_https (put_https s bytes) ≡ sent_https s ++ bytes
put_https-sent (http s) bytes = refl
put_https-sent (https s) bytes = refl

https_sends : SendLaw (over (answering put_https))
https_sends = answering-SendLaw put_https sent_https put_https-sent

abbrev get : Request World.http (List (IoResult Bytes))
get = record {
  method = codes "GET";
  version = 10;
  uri = record {
    scheme = some (codes "https");
    authority = some (codes "h", none);
    path = some (codes "/");
  };
  headers = [];
  body = some (inr (codes "ab") ∷ []);
}

abbrev send_https : Outcome IoError (Response World.http (Body Https))
send_https =
    request_by World.http (over (answering put_https))
      (https_connector base native client World.http provided sockets 3) (build builder connector)
      unicode debug [] get

abbrev request_bytes : Bytes
request_bytes = codes "GET / HTTP/1.0\r\nHost: h\r\nConnection: close\r\n\r\nab"

abbrev response_over : {R : Type 0} → R → Response World.http (Body R)
response_over conn = record {
  status_code = 200;
  headers = record { map = [] };
  body = record {
    drained = false;
    rest = some (codes "hi");
    buf = [];
    counter = 0;
    content_length = none;
    reader = Body.boxed conn;
  };
}

abbrev https_response : Response World.http (Body Https)
https_response = response_over (put_https (https (record { inner = session_for_h })) request_bytes)

run-https : send_https ≡ ok https_response
unfolding request_by request dial build build_req push_headers write_body receive read_head add_item
    parse_headers next position starts_with parse_line parse_status parse_header split rtrim ltrim
    from_utf8_lossy to_lowercase is_ascii content_length parse_usize Response.new Response.new_map
    Response.push Body.new Client.connect secure drive Client.poll poll_inner scheme host Tls.new
    connector from
run-https = refl

request_by-Secured_example :
    (e : Exchanged World.http
      (over (answering put_https))
      (dial World.http (https_connector base native client World.http provided sockets 3 connector))
      https_sends
      unicode
      debug
      []
      get
      https_response)
    × (c : ℕ) × Secured base native client World.http provided sockets 3 connector
        (record { uri = get.uri })
        e.opened
        c
unfolding build
request_by-Secured_example =
    request_by-Secured base native client World.http provided sockets 3 (answering put_https)
      (answering-TransportLaw put_https) https_sends connector unicode debug [] get https_response
      run-https

abbrev Proxied : Type 0
Proxied = ProxyStream Pipe (Bytes × Pipe)

abbrev put_proxied : Proxied → Bytes → Proxied
put_proxied (regular s) bytes = regular (record s { outgoing = s.outgoing ++ bytes })
put_proxied (secured (name, s)) bytes = secured (name, record s { outgoing = s.outgoing ++ bytes })

abbrev sent_proxied : Proxied → Bytes
sent_proxied (regular s) = s.outgoing
sent_proxied (secured (name, s)) = s.outgoing

abbrev send_proxied : Outcome IoError (Response World.http (Body Proxied))
send_proxied =
    request_by World.http (over (answering put_proxied))
      (proxy_connector World.http headers pipes tls pipe_connector false (λ u. []) 1 50)
      (build builder through_proxy) unicode debug [] get

abbrev proxied_response : Response World.http (Body Proxied)
proxied_response = response_over (put_proxied (secured (codes "h", opened)) request_bytes)
