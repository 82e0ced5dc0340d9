-- ===== src/Http/Connecting/Resolved.antt =====
-- A connection of src/http/mod.rs to a host whose name is looked up.
use simple_http.Base.{
  ℕ, zero, suc, ◌≤◌, true, false, Option, none, some, List, map, inl, inr, ◌≡◌, refl, arith, ◌∙◌,
  ok, err, ◌>>=◌,
}
use simple_http.Base.Bytes.{Bytes, codes}
use simple_http.Uri.{HttpTypes}
use simple_http.Io.{IoError, IoResult, Poll, pending, ready}
use simple_http.Io.Drive.{drive}
use simple_http.Connect.{Destination}
use simple_http.Http.Dns.{IpAddr, SocketAddr, IpAddrs, AddrText, try_parse}
use simple_http.Http.Tcp
use simple_http.Http.Tcp.{TcpIo, ConnectingTcp}
use simple_http.Http.Connecting.{
  Resolve, SocketIo, HttpConnector, HttpConnecting, lazy, resolving, connecting, is_scheme, port_or,
  keep_alive, after_tcp, after_resolve, from_lazy, round, poll_loop, poll, start_tcp, connect,
  connect_host, http_connector,
}
use simple_http.Http.Connecting.Direct.{connect-host, http-not_https}

-- The future of a lookup is not ready so many times, and then gives the answer.
pub data Answers (r : Resolve) : ℕ → r.Future → IoResult (List IpAddr) → Type 0 where
  at_once :
      {fut fut' : r.Future} {answer : IoResult (List IpAddr)}
      → r.poll_future fut ≡ (ready answer, fut')
      → Answers r 0 fut answer
  after_wait :
      {rounds : ℕ} {fut fut' : r.Future} {answer : IoResult (List IpAddr)}
      → r.poll_future fut ≡ (pending, fut')
      → Answers r rounds fut' answer
      → Answers r (suc rounds) fut answer

-- the addresses that were found, at the port of the destination
abbrev pub at_port : ℕ → List IpAddr → IpAddrs
at_port port ips = map (λ ip. record { ip = ip; port = port }) ips

module _ (h : HttpTypes) (t : TcpIo) (k : SocketIo t) (r : Resolve) (text : AddrText)
    (now : t.Instant) where
  abbrev resolving_from : HttpConnecting h t k r → r.Future → Option IpAddr → HttpConnecting h t k r
  resolving_from this fut local = record this { state = resolving fut local }

  -- One round is enough for what follows an answer.
  after_resolve-rounds :
      (this : HttpConnecting h t k r) (local : Option IpAddr)
      (x : Poll (IoResult (List IpAddr)) × r.Future)
      → after_resolve h t k r text now (poll_loop h t k r text now 1) this local x
        ≡ after_resolve h t k r text now (poll_loop h t k r text now 2) this local x
  unfolding after_resolve poll_loop round
  after_resolve-rounds this local (pending, fut) = refl
  after_resolve-rounds this local (ready (inl e), fut) = refl
  after_resolve-rounds this local (ready (inr ips), fut) = refl

  -- The lookup is begun and polled by one poll.
  poll-named :
      (this : HttpConnecting h t k r) (resolver : r.Resolver) (host : Bytes) (local : Option IpAddr)
      → this.state ≡ lazy resolver host local
      → try_parse text host this.port ≡ none
      → poll h t k r text now this
        ≡ poll h t k r text now (resolving_from this (r.resolve resolver host) local)
  unfolding poll poll_loop round from_lazy
  poll-named this resolver host local e p =
      simp (e, p)
        (after_resolve-rounds (resolving_from this (r.resolve resolver host) local) local
          (r.poll_future (r.resolve resolver host)))

  module _ (this : HttpConnecting h t k r) (local : Option IpAddr) where
    drive-found :
        {rounds : ℕ} (polls : ℕ) {fut : r.Future} (ips : List IpAddr)
        (found : t.TcpStream × k.Connected) (last : HttpConnecting h t k r)
        → Answers r rounds fut (inr ips)
        → rounds ≤ polls
        → Tcp.poll t this.handle (
              Tcp.new t now local
                (at_port this.port ips)
                this.happy_eyeballs_timeout
                this.reuse_address)
            >>= after_tcp h t k r (start_tcp h t k r text now this local (at_port this.port ips))
          ≡ ok (ready found, last)
        → drive (suc polls) (poll h t k r text now) (resolving_from this fut local) ≡ ok found
    unfolding drive poll poll_loop round after_resolve
    drive-found polls ips found last (at_once p) le e = rw p (rw e refl)
    drive-found (suc polls) ips found last (after_wait p a) le e =
        rw p (drive-found polls ips found last a (omega arith) e)
    drive-found zero ips found last (after_wait p a) le e = absurd (omega arith)

    drive-lost :
        {rounds : ℕ} (polls : ℕ) {fut : r.Future} (x : IoError)
        → Answers r rounds fut (inl x)
        → rounds ≤ polls
        → drive (suc polls) (poll h t k r text now) (resolving_from this fut local) ≡ err x
    unfolding drive poll poll_loop round after_resolve
    drive-lost polls x (at_once p) le = rw p refl
    drive-lost (suc polls) x (after_wait p a) le = rw p (drive-lost polls x a (omega arith))
    drive-lost zero x (after_wait p a) le = absurd (omega arith)

  abbrev pub port_of : HttpConnector h t k r → h.Uri → Bytes → ℕ
  unfolding connect_host
  port_of this uri host = (connect_host h t k r this uri (some host)).port

  -- a connector that takes the URI, with a host that is no address
  module _ (this : HttpConnector h t k r) (dst : Destination h) (host : Bytes)
      (taken : connect h t k r this dst.uri ≡ connect_host h t k r this dst.uri (some host))
      (no_v4 : text.parse_v4 host ≡ none) (no_v6 : text.parse_v6 host ≡ none) where
    abbrev connecting_host : HttpConnecting h t k r
    unfolding connect_host
    connecting_host = connect_host h t k r this dst.uri (some host)

    connector-resolving :
        (polls : ℕ)
        → (http_connector h t k r text now (suc polls) this).connect dst
          ≡ drive
              (suc polls)
              (poll h t k r text now)
              (resolving_from connecting_host (r.resolve this.resolver host) this.local_address)
    unfolding drive connect_host try_parse
    connector-resolving polls = rw taken (
        rw
          (poll-named connecting_host this.resolver host this.local_address refl
            (rw (no_v4, try_parse) (rw no_v6 refl)))
          refl)

    -- A lookup that fails gives its error, one poll later than it waits.
    connector-lost :
        {rounds : ℕ} (polls : ℕ) (x : IoError)
        → Answers r rounds (r.resolve this.resolver host) (inl x)
        → rounds ≤ polls
        → (http_connector h t k r text now (suc polls) this).connect dst ≡ err x
    connector-lost polls x a le =
        connector-resolving polls ∙ drive-lost connecting_host this.local_address polls x a le

    pub connector-Answers :
        {rounds : ℕ} (polls port : ℕ) (ips : List IpAddr) (next : ConnectingTcp t)
        (sock sock₁ sock₂ : t.TcpStream) (peer : SocketAddr)
        → port_of this dst.uri host ≡ port
        → Answers r rounds (r.resolve this.resolver host) (inr ips)
        → rounds ≤ polls
        → Tcp.poll t this.handle (
            Tcp.new t now this.local_address
              (at_port port ips)
              this.happy_eyeballs_timeout
              this.reuse_address)
          ≡ ok (ready sock, next)
        → keep_alive h t k r this.keep_alive_timeout sock ≡ ok sock₁
        → k.set_nodelay this.nodelay sock₁ ≡ ok sock₂
        → k.peer_addr sock₂ ≡ ok peer
        → (http_connector h t k r text now (suc polls) this).connect dst
          ≡ ok (sock₂, k.with_extra (record { remote_addr = peer }))
    unfolding connect_host after_tcp
    connector-Answers polls port ips next sock sock₁ sock₂ peer q a le p k₁ k₂ k₃ =
        connector-resolving polls
        ∙ drive-found connecting_host this.local_address polls ips
            (sock₂, k.with_extra (record { remote_addr = peer }))
            (record connecting_host { state = connecting next }) a le
            (rw q (rw p (rw k₁ (rw k₂ (rw k₃ refl)))))

  -- An http destination whose host is a name is connected by one poll more than the lookup of
  -- the name waits: where the lookup finds addresses of which one is connected at once, the
  -- connection is to that one, at the port of the destination or 80, with the options of the
  -- connector set on the socket.
  pub http_connector-Answers :
      (this : HttpConnector h t k r) (dst : Destination h) (host : Bytes)
      → is_scheme (codes "http") (h.scheme_part dst.uri) ≡ true
      → h.host dst.uri ≡ some host
      → text.parse_v4 host ≡ none
      → text.parse_v6 host ≡ none
      → {rounds : ℕ} (polls : ℕ) (ips : List IpAddr) (next : ConnectingTcp t)
        (sock sock₁ sock₂ : t.TcpStream) (peer : SocketAddr)
      → Answers r rounds (r.resolve this.resolver host) (inr ips)
      → rounds ≤ polls
      → Tcp.poll t this.handle (
          Tcp.new t now this.local_address
            (at_port (port_or 80 (h.port_u16 dst.uri)) ips)
            this.happy_eyeballs_timeout
            this.reuse_address)
        ≡ ok (ready sock, next)
      → keep_alive h t k r this.keep_alive_timeout sock ≡ ok sock₁
      → k.set_nodelay this.nodelay sock₁ ≡ ok sock₂
      → k.peer_addr sock₂ ≡ ok peer
      → (http_connector h t k r text now (suc polls) this).connect dst
        ≡ ok (sock₂, k.with_extra (record { remote_addr = peer }))
  unfolding connect_host
  http_connector-Answers this dst host s e v4 v6 polls ips next sock sock₁ sock₂ peer a le p k₁ k₂
        k₃ =
      connector-Answers this dst host (connect-host h t k r text now this dst host s e) v4 v6 polls
        (port_or 80 (h.port_u16 dst.uri)) ips next sock sock₁ sock₂ peer
        (rw (http-not_https (h.scheme_part dst.uri) s) refl) a le p k₁ k₂ k₃

  -- Where http is not enforced, a URI with any scheme is taken.
  pub connect-free :
      (this : HttpConnector h t k r) (uri : h.Uri) (s host : Bytes)
      → this.enforce_http ≡ false
      → h.scheme_part uri ≡ some s
      → h.host uri ≡ some host
      → connect h t k r this uri ≡ connect_host h t k r this uri (some host)
  unfolding connect
  connect-free this uri s host f e g = simp (f, e, g) refl
