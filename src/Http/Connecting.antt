-- ===== src/Http/Connecting.antt =====
-- src/http/mod.rs, the upper half: the connector, which checks the URL, and the future that
-- resolves the host and connects. Resolver and socket are parameters.
pub mod Outcomes
pub mod Progress
pub mod Direct
pub mod Resolved
use simple_http.Base.{
  ℕ, zero, suc, Bool, true, false, not, Option, none, some, List, [], ◌∷◌, map, ◌⊎◌, inl, inr,
  if◌then◌else◌, Outcome, ok, err, panic, out_of_fuel, ◌>>=◌, unwrap,
}
use simple_http.Base.Bytes.{Bytes, codes, bytes_eq}
use simple_http.Uri.{HttpTypes}
use simple_http.Io.{IoError, IoResult, invalid_input, Poll, pending, ready}
use simple_http.Io.Drive.{drive}
use simple_http.Connect.{Connector}
use simple_http.Http.Dns.{IpAddr, SocketAddr, IpAddrs, AddrText, try_parse}
use simple_http.Http.Tcp
use simple_http.Http.Tcp.{TcpIo, ConnectingTcp}

-- The trait `Resolve` with its future.
pub record Resolve : Type 1 where
  pub Resolver : Type 0
  pub Future : Type 0
  pub resolve : Resolver → Bytes → Future
  pub poll_future : Future → Poll (IoResult (List IpAddr)) × Future

-- `HttpInfo`
pub record HttpInfo : Type 0 where
  pub remote_addr : SocketAddr

-- What is done with a connected socket, the timer's units, and `Connected` of hyper.
pub record SocketIo (t : TcpIo) : Type 1 where
  pub set_keepalive : t.Duration → t.TcpStream → Outcome IoError t.TcpStream
  pub set_nodelay : Bool → t.TcpStream → Outcome IoError t.TcpStream
  pub peer_addr : t.TcpStream → Outcome IoError SocketAddr
  pub from_millis : ℕ → t.Duration
  pub Connected : Type 0
  -- `Connected::new().extra(info)`
  pub with_extra : HttpInfo → Connected

pub data InvalidUrl : Type 0 where
  missing_scheme not_http missing_authority : InvalidUrl

abbrev pub description : InvalidUrl → Bytes
description missing_scheme = codes "invalid URL, missing scheme"
description not_http = codes "invalid URL, scheme must be http"
description missing_authority = codes "invalid URL, missing domain"

-- `Display`
unfoldable fmt : InvalidUrl → Bytes
fmt this = description this

abbrev pub url_error : InvalidUrl → IoError
url_error e = record { kind = invalid_input; message = description e }

abbrev pub is_scheme : Bytes → Option Bytes → Bool
is_scheme name none = false
is_scheme name (some s) = bytes_eq s name

abbrev pub is_none {ℓ} : {A : Type ℓ} → Option A → Bool
is_none none = true
is_none (some a) = false

abbrev pub port_or : ℕ → Option ℕ → ℕ
port_or d none = d
port_or d (some port) = port

module _ (h : HttpTypes) (t : TcpIo) (k : SocketIo t) (r : Resolve) where
  pub record HttpConnector : Type 0 where
    pub enforce_http : Bool
    pub handle : Option t.Handle
    pub happy_eyeballs_timeout : Option t.Duration
    pub keep_alive_timeout : Option t.Duration
    pub local_address : Option IpAddr
    pub nodelay : Bool
    pub resolver : r.Resolver
    pub reuse_address : Bool

  unfoldable pub new_with_resolver : r.Resolver → HttpConnector
  new_with_resolver resolver = record {
    enforce_http = true;
    handle = none;
    happy_eyeballs_timeout = some (k.from_millis 300);
    keep_alive_timeout = none;
    local_address = none;
    nodelay = false;
    resolver = resolver;
    reuse_address = false;
  }

  -- `HttpConnector::new`; `ares` is the static resolver `ARES`.
  unfoldable pub new : r.Resolver → ℕ → HttpConnector
  unfolding new_with_resolver
  new ares threads = new_with_resolver ares

  unfoldable pub enforce_http : Bool → HttpConnector → HttpConnector
  enforce_http is_enforced this = record this { enforce_http = is_enforced }

  pub data State : Type 0 where
    lazy : r.Resolver → Bytes → Option IpAddr → State
    resolving : r.Future → Option IpAddr → State
    connecting : ConnectingTcp t → State
    error : Option IoError → State

  pub record HttpConnecting : Type 0 where
    pub state : State
    pub handle : Option t.Handle
    pub happy_eyeballs_timeout : Option t.Duration
    pub keep_alive_timeout : Option t.Duration
    pub nodelay : Bool
    pub port : ℕ
    pub reuse_address : Bool

  abbrev pub invalid_url : InvalidUrl → Option t.Handle → HttpConnecting
  invalid_url e handle = record {
    state = error (some (url_error e));
    handle = handle;
    happy_eyeballs_timeout = none;
    keep_alive_timeout = none;
    nodelay = false;
    port = 0;
    reuse_address = false;
  }

  -- `connect`, past the tests of the scheme
  unfoldable pub connect_host : HttpConnector → h.Uri → Option Bytes → HttpConnecting
  connect_host this uri none = invalid_url missing_authority this.handle
  connect_host this uri (some host) = record {
    state = lazy this.resolver host this.local_address;
    handle = this.handle;
    happy_eyeballs_timeout = this.happy_eyeballs_timeout;
    keep_alive_timeout = this.keep_alive_timeout;
    nodelay = this.nodelay;
    port =
        port_or (if is_scheme (codes "https") (h.scheme_part uri) then 443 else 80)
          (h.port_u16 uri);
    reuse_address = this.reuse_address;
  }

  unfoldable pub connect : HttpConnector → h.Uri → HttpConnecting
  unfolding connect_host
  connect this uri =
      if this.enforce_http
      then if not (is_scheme (codes "http") (h.scheme_part uri))
        then invalid_url not_http this.handle
        else connect_host this uri (h.host uri)
      else if is_none (h.scheme_part uri)
      then invalid_url missing_scheme this.handle
      else connect_host this uri (h.host uri)

  -- What a poll gives. After an error the future is not used again.
  abbrev pub Polled : Type 0
  Polled = Outcome IoError (Poll (t.TcpStream × k.Connected) × HttpConnecting)

  abbrev pub keep_alive : Option t.Duration → t.TcpStream → Outcome IoError t.TcpStream
  keep_alive none sock = ok sock
  keep_alive (some dur) sock = k.set_keepalive dur sock

  unfoldable pub after_tcp : HttpConnecting → Poll t.TcpStream × ConnectingTcp t → Polled
  after_tcp this (pending, c) = ok (pending, record this { state = connecting c })
  after_tcp this (ready sock, c) = do
    sock₁ ← keep_alive this.keep_alive_timeout sock
    sock₂ ← k.set_nodelay this.nodelay sock₁
    addr ← k.peer_addr sock₂
    ok (
      ready (sock₂, k.with_extra (record { remote_addr = addr })),
      record this { state = connecting c },
    )

  module _ (text : AddrText) (now : t.Instant) where
    abbrev pub start_tcp : HttpConnecting → Option IpAddr → IpAddrs → HttpConnecting
    start_tcp this local addrs = record this {
      state = connecting (Tcp.new t now local addrs this.happy_eyeballs_timeout this.reuse_address);
    }

    -- by whether the host is an address itself; `go` is the next round of the loop
    unfoldable pub from_lazy :
        (HttpConnecting → Polled)
        → HttpConnecting
        → r.Resolver
        → Bytes
        → Option IpAddr
        → Option IpAddrs
        → Polled
    from_lazy go this resolver host local (some addrs) = go (start_tcp this local addrs)
    from_lazy go this resolver host local none =
        go (record this { state = resolving (r.resolve resolver host) local })

    unfoldable pub after_resolve :
        (HttpConnecting → Polled)
        → HttpConnecting
        → Option IpAddr
        → Poll (IoResult (List IpAddr)) × r.Future
        → Polled
    after_resolve go this local (pending, fut) =
        ok (pending, record this { state = resolving fut local })
    after_resolve go this local (ready (inl e), fut) = err e
    after_resolve go this local (ready (inr ips), fut) =
        go (start_tcp this local (map (λ ip. record { ip = ip; port = this.port }) ips))

    -- one round of the loop
    unfoldable pub round : (HttpConnecting → Polled) → HttpConnecting → State → Polled
    unfolding from_lazy after_resolve after_tcp
    round go this (lazy resolver host local) =
        from_lazy go this resolver host local (try_parse text host this.port)
    round go this (resolving fut local) = after_resolve go this local (r.poll_future fut)
    round go this (connecting c) = Tcp.poll t this.handle c >>= after_tcp this
    round go this (error e) = do e' ← unwrap e; err e'

    unfoldable pub poll_loop : ℕ → HttpConnecting → Polled
    unfolding round
    poll_loop zero this = out_of_fuel
    poll_loop (suc fuel) this = round (poll_loop fuel) this this.state

    -- `HttpConnecting::poll`: the state moves on twice at most before the loop is left.
    unfoldable pub poll : HttpConnecting → Polled
    unfolding poll_loop
    poll this = poll_loop 3 this

    -- `HttpConnector` as a connector, its future polled `polls` times at most
    abbrev pub http_connector : ℕ → HttpConnector → Connector h t.TcpStream k.Connected
    http_connector polls this = record { connect = λ dst. drive polls poll (connect this dst.uri) }
