-- ===== src/Tests/Ways.antt =====
-- Runs of the proxy connector, and instances of the theorems on whole connections.
use simple_http.Base.{
  Bool, true, false, none, some, List, [], ◌∷◌, ◌++◌, ◌≡◌, refl, subst, Outcome, ok,
}
use simple_http.Base.Bytes.{Bytes, codes}
use simple_http.Base.Search.{split, starts_with, ends_with}
use simple_http.Base.Text.{parse_usize, show_nat, is_ascii}
use simple_http.Io.{IoError, ready}
use simple_http.Io.Drive.{drive}
use simple_http.Tests.World
use simple_http.Tests.World.{TestUri}
use simple_http.Tests.Tunnels.{Pipe, pipes, tunnel_law, pipe_of, pipe_of-fresh, granted}
use simple_http.Tests.Connections
use simple_http.Tests.Connections.{tcp, names, texts, at80, at80-Refused, connects}
use simple_http.Connect.{
  Destination, Connector, scheme, host, port, set_scheme, set_host, set_port_opt, update_uri,
}
use simple_http.Proxy.Stream.{ProxyStream, secured}
use simple_http.Proxy.Tunnel
use simple_http.Proxy.Routing.{all, Proxy, match_proxy, matches, destination_dst, proxy_dst}
use simple_http.Proxy.Connector as Way
use simple_http.Proxy.Connector.{
  Headers, TokioTls, ProxyConnector, set_header, set_authorization, new_secured, add_proxy,
  from_proxy, connect_by, connect_tunnel, over_tunnel,
}
use simple_http.Proxy.Connector.Routes.{FreshLaw}
use simple_http.Http.Dns.{IpAddrs, v4, v6, split_by_preference, partition}
use simple_http.Http.Tcp
use simple_http.Http.Tcp.{ConnectingTcp}
use simple_http.Http.Tcp.Polls.{none_refused}
use simple_http.Http.Tcp.Takeover.{poll-new_takeover}
use simple_http.Http.Connecting.{HttpConnector, http_connector, new_with_resolver}
use simple_http.Http.Connecting.Direct.{http_connector-connected}

abbrev pub headers : Headers
headers = record {
  HeaderMap = List (Bytes × Bytes);
  empty = [];
  insert = λ name value map. map ++ (name, value) ∷ [];
  Credentials = Bytes;
  insert_authorization = λ c map. map ++ (codes "authorization", c) ∷ [];
  insert_proxy_authorization = λ c map. map ++ (codes "proxy-authorization", c) ∷ [];
  entries = λ map. map;
}

-- A session is its host and the stream below it.
abbrev pub tls : TokioTls Pipe
tls = record {
  TlsConnector = Bool;
  build = ok true;
  TlsStream = Bytes × Pipe;
  connect = λ client name s. ok (name, s);
}

abbrev pub pipe_connector : Bytes → Connector World.http Pipe Bool
pipe_connector incoming = record { connect = λ dst. ok (pipe_of incoming, false) }

pub pipe-FreshLaw : FreshLaw tunnel_law (pipe_connector granted)
pipe-FreshLaw = record {
  unsent = λ dst s c h.
      let same : pipe_of granted ≡ s = cc in
      subst (λ x. tunnel_law.sent x ≡ []) same (pipe_of-fresh granted).0;
  unread = λ dst s c h.
      let same : pipe_of granted ≡ s = cc in
      subst (λ x. tunnel_law.received x ≡ []) same (pipe_of-fresh granted).1;
}

abbrev pub to : Bytes → Destination World.http
to s = record {
  uri = record { scheme = some s; authority = some (codes "h", none); path = some (codes "/") };
}

abbrev pub proxy : Proxy World.http (List (Bytes × Bytes))
proxy = record {
  intercept = all;
  headers = (codes "K", codes "v") ∷ [];
  uri = record {
    scheme = some (codes "http");
    authority = some (codes "p", some 3128);
    path = some (codes "/");
  };
}

abbrev pub through_proxy : ProxyConnector World.http headers pipes tls Bytes
through_proxy = record { proxies = proxy ∷ []; connector = granted; tls = some true }

abbrev connect_to : Bytes → Outcome IoError (ProxyStream Pipe (Bytes × Pipe) × Bool)
connect_to s =
    Way.connect World.http headers pipes tls pipe_connector false (λ u. []) 1 50 through_proxy
      (to s)

run-authorization :
    (set_authorization World.http headers (codes "c") proxy).headers
    ≡ (codes "K", codes "v")
      ∷ (codes "authorization", codes "c")
      ∷ (codes "proxy-authorization", codes "c")
      ∷ []
unfolding set_authorization
run-authorization = refl

run-from_proxy : from_proxy World.http headers pipes tls granted proxy ≡ ok through_proxy
unfolding from_proxy new_secured add_proxy
run-from_proxy = refl

abbrev pub opened : Pipe
opened = record {
  incoming = [];
  pace = 6;
  outgoing = codes "CONNECT h:443 HTTP/1.1\r\nHost: h:443\r\nK: v\r\n\r\n";
  given = granted;
}

run-tunnel : connect_to (codes "https") ≡ ok (secured (codes "h", opened), true)
unfolding Way.connect connect_by connect_tunnel over_tunnel drive Tunnel.new Tunnel.with_stream
    Tunnel.poll Tunnel.round Tunnel.after_write Tunnel.after_read Tunnel.judge Tunnel.finish
    Tunnel.headers_display match_proxy matches destination_dst proxy_dst scheme host port set_scheme
    set_host set_port_opt update_uri show_nat split parse_usize starts_with ends_with is_ascii
run-tunnel = refl

abbrev two_families : IpAddrs
two_families = at80 (v4 1) ∷ at80 (v6 5) ∷ at80 (v6 6) ∷ []

accepts : Tcp.connect tcp (at80 (v6 5)) none none false ≡ ok (at80 (v6 5), 0)
unfolding Tcp.connect
accepts = refl

split_two : split_by_preference two_families ≡ (at80 (v4 1) ∷ [], at80 (v6 5) ∷ at80 (v6 6) ∷ [])
unfolding split_by_preference partition
split_two = refl

poll-new_takeover_example :
    (next : ConnectingTcp tcp) × (Tcp.poll tcp none
        (Tcp.new tcp 0 none two_families (some 300) false)
      ≡ ok (ready (at80 (v6 5)), next))
poll-new_takeover_example =
    poll-new_takeover tcp none none false 0 300 two_families (at80 (v4 1)) [] [] (at80 (v6 6) ∷ [])
      (at80 (v6 5)) (at80 (v6 5), 0) (at80 (v6 5), 0) (at80 (v6 5)) split_two at80-Refused
      none_refused accepts refl

abbrev connector : HttpConnector World.http tcp Connections.sockets names
unfolding new_with_resolver
connector = new_with_resolver World.http tcp Connections.sockets names []

abbrev target : Destination World.http
target = record { uri = Connections.uri_of (codes "http") (codes "0.0.0.9") }

reaches : Tcp.connect tcp (at80 (v4 9)) none none false ≡ ok (at80 (v4 9), 0)
unfolding Tcp.connect
reaches = refl

http_connector-connected_example :
    (http_connector World.http tcp Connections.sockets names texts 0 1 connector).connect target
    ≡ ok (at80 (v4 9), at80 (v4 9))
unfolding connector new_with_resolver
http_connector-connected_example =
    http_connector-connected World.http tcp Connections.sockets names texts 0 connector target 0
      (codes "0.0.0.9") 9 (at80 (v4 9), 0) (at80 (v4 9), 0) (at80 (v4 9)) (at80 (v4 9))
      (at80 (v4 9)) (at80 (v4 9)) refl refl refl reaches refl refl refl refl
