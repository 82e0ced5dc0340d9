-- ===== src/Tests/Connections.antt =====
-- Runs of the model of src/http, and instances of its theorems.
use simple_http.Base.{
  ℕ, zero, suc, Bool, true, false, none, some, List, [], ◌∷◌, ◌≡◌, inl, inr, refl, arith, ◌==◌,
  if◌then◌else◌, ok, err, panic, Returns,
}
use simple_http.Base.Bytes.{Bytes, codes, bytes_eq}
use simple_http.Io.{IoError, IoResult, other, Poll, pending, ready}
use simple_http.Tests.World.{http, TestUri}
use simple_http.Http.Dns.{
  IpAddr, v4, v6, SocketAddr, IpAddrs, AddrText, partition, split_by_preference, is_empty,
}
use simple_http.Http.Dns.Preference.{Merges, AllV6, split_by_preference-Merges}
use simple_http.Http.Tcp
use simple_http.Http.Tcp.{
  TcpIo, ConnectingTcp, remote_new, remote_poll, connect, try_next, poll_current, poll_with,
  after_preferred, after_delay, after_fallback,
}
use simple_http.Http.Tcp.Usable.{TcpLaw, answers_ok}
use simple_http.Http.Tcp.Live.{TcpResult}
use simple_http.Http.Tcp.Polls.{
  Refused, none_refused, also_refused, fresh, poll-Waiting, poll-new_empty,
}
use simple_http.Http.Connecting.{
  Resolve, SocketIo, HttpConnector, HttpConnecting, new_with_resolver, lazy, resolving, url_error,
  not_http, round, from_lazy, after_resolve, after_tcp, start_tcp,
}
use simple_http.Http.Connecting
use simple_http.Http.Connecting.Outcomes.{poll-no_address}
use simple_http.Http.Connecting.Progress.{SocketLaw, Returns-poll_http}
use simple_http.Http.Ares
use simple_http.Http.Ares.{
  Ares, default, ResolverCache, CAresResolverFuture, lookup, add, resolve, from_resolver, done,
}
use simple_http.Http.Ares.Cache.{lookup-add, poll-resolve}

abbrev refusal : IoError
refusal = record { kind = other; message = codes "refused" }

abbrev pub number : IpAddr → ℕ
number (v4 n) = n
number (v6 n) = n

-- An attempt, with the polls that it lets pass.
abbrev Attempt : Type 0
Attempt = SocketAddr × ℕ

abbrev poll_attempt : Attempt → Poll (IoResult SocketAddr) × Attempt
poll_attempt (addr, suc turns) = (pending, (addr, turns))
poll_attempt (addr, zero) =
    (if number addr.ip == 1 then ready (inl refusal) else ready (inr addr), (addr, zero))

-- Address 1 refuses, address 3 answers at the second poll, the others at once.
abbrev pub tcp : TcpIo
tcp = record {
  Builder = Bool;
  new_v4 = ok false;
  new_v6 = ok true;
  set_reuse = λ b s. ok s;
  bind = λ a s. ok s;
  Socket = Bool;
  to_tcp_stream = λ s. ok s;
  Handle = Bool;
  default_handle = false;
  ConnectFuture = Attempt;
  connect_std = λ s addr handle. (addr, if number addr.ip == 3 then 1 else 0);
  TcpStream = SocketAddr;
  poll_connect = poll_attempt;
  Duration = ℕ;
  Instant = ℕ;
  Delay = ℕ;
  delay_after = λ now d. now;
  poll_delay = λ d. (ready true, d);
  windows = false;
}

tcp_law : TcpLaw tcp
tcp_law = record {
  new_v4_answers = answers_ok _ refl;
  new_v6_answers = answers_ok _ refl;
  set_reuse_answers = λ b s. answers_ok _ refl;
  bind_answers = λ a s. answers_ok _ refl;
  stream_answers = λ s. answers_ok _ refl;
}

abbrev pub sockets : SocketIo tcp
sockets = record {
  set_keepalive = λ d s. ok s;
  set_nodelay = λ b s. ok s;
  peer_addr = λ s. ok s;
  from_millis = λ n. n;
  Connected = SocketAddr;
  with_extra = λ info. info.remote_addr;
}

socket_law : SocketLaw sockets
socket_law = record {
  keepalive_answers = λ d s. answers_ok _ refl;
  nodelay_answers = λ b s. answers_ok _ refl;
  peer_answers = λ s. answers_ok _ refl;
}

-- The resolver answers with the addresses that it holds.
abbrev pub names : Resolve
names = record {
  Resolver = List IpAddr;
  Future = List IpAddr;
  resolve = λ ips name. ips;
  poll_future = λ ips. (ready (inr ips), ips);
}

abbrev pub texts : AddrText
texts = record {
  parse_v4 = λ b. if bytes_eq b (codes "0.0.0.9") then some 9 else none;
  parse_v6 = λ b. none;
}

abbrev pub at80 : IpAddr → SocketAddr
at80 ip = record { ip = ip; port = 80 }

abbrev two_families : IpAddrs
two_families = at80 (v6 3) ∷ at80 (v4 1) ∷ at80 (v6 5) ∷ []

abbrev pub connector : List IpAddr → HttpConnector http tcp sockets names
unfolding new_with_resolver
connector ips = new_with_resolver http tcp sockets names ips

abbrev pub uri_of : Bytes → Bytes → TestUri
uri_of scheme host = record {
  scheme = some scheme;
  authority = some (host, none);
  path = some (codes "/");
}

abbrev connecting_to : List IpAddr → Bytes → HttpConnecting http tcp sockets names
unfolding connector
connecting_to ips host =
    Connecting.connect http tcp sockets names (connector ips) (uri_of (codes "http") host)

run-split : split_by_preference two_families ≡ (at80 (v6 3) ∷ at80 (v6 5) ∷ [], at80 (v4 1) ∷ [])
unfolding split_by_preference partition
run-split = refl

run-refused :
    Tcp.poll tcp none (Tcp.new tcp 0 none (at80 (v4 1) ∷ []) (some 300) false) ≡ err refusal
unfolding Tcp.poll Tcp.new split_by_preference partition is_empty remote_poll poll_current try_next
    connect
run-refused = refl

split_by_preference-Merges_example :
    (let (preferred, fallback) = split_by_preference two_families in
      Merges preferred fallback two_families × AllV6 true preferred × AllV6 false fallback)
    × (rest : IpAddrs) × ((split_by_preference two_families).0 ≡ at80 (v6 3) ∷ rest)
split_by_preference-Merges_example =
    split_by_preference-Merges (at80 (v6 3)) (at80 (v4 1) ∷ at80 (v6 5) ∷ [])

poll-Waiting_example :
    TcpResult (Tcp.poll tcp none (Tcp.new tcp 0 none two_families (some 300) false))
poll-Waiting_example =
    poll-Waiting tcp tcp_law none 0 none (at80 (v6 3)) (at80 (v4 1) ∷ at80 (v6 5) ∷ []) (some 300)
      false (fresh refl)

poll-new_empty_example : Tcp.poll tcp none (Tcp.new tcp 0 none [] (some 300) false) ≡ panic
poll-new_empty_example = poll-new_empty tcp none 0 none (some 300) false

pub at80-Refused : Refused tcp none none false (at80 (v4 1) ∷ [])
unfolding connect
at80-Refused =
    also_refused (at80 (v4 1)) (at80 (v4 1), 0) (at80 (v4 1), 0) refusal refl refl none_refused

pub connects : connect tcp (at80 (v4 2)) none none false ≡ ok (at80 (v4 2), 0)
unfolding connect
connects = refl

abbrev unresolved : HttpConnecting http tcp sockets names
unresolved = record {
  state = resolving [] none;
  handle = none;
  happy_eyeballs_timeout = some 300;
  keep_alive_timeout = none;
  nodelay = false;
  port = 80;
  reuse_address = false;
}

poll-no_address_example : Connecting.poll http tcp sockets names texts 0 unresolved ≡ panic
poll-no_address_example =
    poll-no_address http tcp sockets names texts 0 unresolved [] [] none refl refl

Returns-poll_http_example : Returns (Connecting.poll http tcp sockets names texts 0 unresolved)
Returns-poll_http_example =
    Returns-poll_http http tcp tcp_law sockets socket_law names texts 0 unresolved

abbrev ares : Ares
ares = record {
  AresFuture = List ℕ;
  FutureResolver = Unit {0};
  new_resolver = some tt;
  query_a = λ resolver name. [];
  poll_query = λ ips. (ready (inr ips), ips);
}

lookup-add_example :
    (cache' : ResolverCache) × (add {E = IoError} 5 (codes "h") (v4 7 ∷ []) default ≡ ok cache')
    × (lookup 9 (codes "h") cache' ≡ some (v4 7 ∷ []))
    × (lookup 5 (codes "h") cache' ≡ none)
    × (lookup 9 (codes "g") cache' ≡ lookup 9 (codes "g") default)
lookup-add_example =
    lookup-add 5 9 (codes "h") (codes "g") (v4 7 ∷ []) default refl (omega arith) refl

poll-resolve_example :
    (cache' : ResolverCache) × (Ares.poll ares 5 (from_resolver (7 ∷ []) (codes "h")) default
      ≡ ok (ready (inr (v4 7 ∷ [])), done, cache'))
    × (Ares.poll ares 9
          (resolve ares 9 (codes "h") (record { cache = cache'; resolver = tt }))
          cache'
        ≡ ok (ready (inr (v4 7 ∷ [])), done, cache'))
poll-resolve_example =
    poll-resolve ares 5 9 (7 ∷ []) (7 ∷ []) (codes "h") default (7 ∷ []) tt refl refl (omega arith)
