-- ===== src/Http/Connecting/Direct.antt =====
-- A connection of src/http/mod.rs to a host that is given as an address.
use simple_http.Base.{
  ℕ, suc, Bool, true, false, Option, none, some, [], ◌∷◌, ◌≡◌, refl, inr, inl, Bool-cases, ok,
}
use simple_http.Base.Bytes.{Bytes, codes, bytes_eq_iff}
use simple_http.Uri.{HttpTypes}
use simple_http.Io.{ready}
use simple_http.Io.Drive.{drive}
use simple_http.Connect.{Destination}
use simple_http.Http.Dns.{
  IpAddr, v4, SocketAddr, AddrText, try_parse, split_by_preference, partition, is_empty,
}
use simple_http.Http.Dns.Preference.{same_refl}
use simple_http.Http.Tcp
use simple_http.Http.Tcp.{
  TcpIo, ConnectingTcp, remote_poll, poll_current, try_next, poll_with, after_preferred,
}
use simple_http.Http.Connecting.{
  Resolve, SocketIo, HttpConnector, is_scheme, is_none, port_or, keep_alive, after_tcp, connect,
  connect_host, http_connector,
}
use simple_http.Http.Connecting.Outcomes.{poll-literal}

-- One address is no matter of preference.
split-single : (a : SocketAddr) → split_by_preference (a ∷ []) ≡ (a ∷ [], [])
unfolding split_by_preference partition
split-single a = rw same_refl refl

is_none-scheme : (o : Option Bytes) → is_scheme (codes "http") o ≡ true → is_none o ≡ false
is_none-scheme none h = absurd cc
is_none-scheme (some s) h = refl

pub http-not_https :
    (o : Option Bytes) → is_scheme (codes "http") o ≡ true → is_scheme (codes "https") o ≡ false
http-not_https none h = refl
http-not_https (some s) h =
    let e : s ≡ codes "http" = (bytes_eq_iff s (codes "http")).0 h in rw e refl

module _ (t : TcpIo) (now : t.Instant) (local : Option IpAddr) (handle : Option t.Handle)
    (reuse : Bool) (a : SocketAddr) (fut fut' : t.ConnectFuture) (sock : t.TcpStream)
    (c : Tcp.connect t a local handle reuse ≡ ok fut)
    (p : t.poll_connect fut ≡ (ready (inr sock), fut')) where
  poll-single :
      (timeout : Option t.Duration)
      → (next : ConnectingTcp t) × (Tcp.poll t handle (Tcp.new t now local (a ∷ []) timeout reuse)
          ≡ ok (ready sock, next))
  unfolding Tcp.poll Tcp.new poll_with remote_poll poll_current try_next is_empty
  poll-single none = (
    record {
      local_addr = local;
      preferred = record { addrs = []; current = some fut' };
      fallback = none;
      reuse_address = reuse;
    },
    rw c (rw p refl),
  )
  poll-single (some d) = (
    record {
      local_addr = local;
      preferred = record { addrs = []; current = some fut' };
      fallback = none;
      reuse_address = reuse;
    },
    rw (split-single a) (rw c (rw p refl)),
  )

module _ (h : HttpTypes) (t : TcpIo) (k : SocketIo t) (r : Resolve) (text : AddrText)
    (now : t.Instant) (this : HttpConnector h t k r) (dst : Destination h) where
  pub connect-host :
      (host : Bytes)
      → is_scheme (codes "http") (h.scheme_part dst.uri) ≡ true
      → h.host dst.uri ≡ some host
      → connect h t k r this dst.uri ≡ connect_host h t k r this dst.uri (some host)
  unfolding connect
  connect-host host s e = elim (Bool-cases this.enforce_http) [
    | inl forced ↦ simp (forced, s, e) refl
    | inr free ↦ simp (free, is_none-scheme (h.scheme_part dst.uri) s, e) refl
  ]

  -- An http destination whose host is an address, and which that address accepts at once, is
  -- connected by the first poll: to that address at the port of the destination, or 80, with the
  -- options of the connector set on the socket. No name is looked up.
  pub http_connector-connected :
      (polls : ℕ) (host : Bytes) (n : ℕ) (fut fut' : t.ConnectFuture)
      (sock sock₁ sock₂ : t.TcpStream) (peer : SocketAddr)
      → is_scheme (codes "http") (h.scheme_part dst.uri) ≡ true
      → h.host dst.uri ≡ some host
      → text.parse_v4 host ≡ some n
      → Tcp.connect t
          (record { ip = v4 n; port = port_or 80 (h.port_u16 dst.uri) })
          this.local_address
          this.handle
          this.reuse_address
        ≡ ok fut
      → t.poll_connect fut ≡ (ready (inr sock), fut')
      → keep_alive h t k r this.keep_alive_timeout sock ≡ ok sock₁
      → k.set_nodelay this.nodelay sock₁ ≡ ok sock₂
      → k.peer_addr sock₂ ≡ ok peer
      → (http_connector h t k r text now (suc polls) this).connect dst
        ≡ ok (sock₂, k.with_extra (record { remote_addr = peer }))
  unfolding drive connect connect_host try_parse after_tcp
  http_connector-connected polls host n fut fut' sock sock₁ sock₂ peer s e q c p k₁ k₂ k₃ =
      let a : SocketAddr = record { ip = v4 n; port = port_or 80 (h.port_u16 dst.uri) } in
      let start = connect_host h t k r this dst.uri (some host) in
      let (next, single) =
        poll-single t now this.local_address this.handle this.reuse_address a fut fut' sock c p
          this.happy_eyeballs_timeout in
      let literal =
        poll-literal h t k r text now start this.resolver host this.local_address {addrs = a ∷ []}
          refl (rw (http-not_https (h.scheme_part dst.uri) s) (rw (q, try_parse) refl)) in
      rw (connect-host host s e) (rw literal (rw single (rw k₁ (rw k₂ (rw k₃ refl)))))
