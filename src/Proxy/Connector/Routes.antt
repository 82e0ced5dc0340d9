-- ===== src/Proxy/Connector/Routes.antt =====
-- The way that a connection of src/proxy/mod.rs has taken.
use simple_http.Base.{
  ℕ, true, false, Option, none, some, [], ◌≡◌, inl, inr, refl, sym, subst, arith, ok, ok_parts,
  ok_pair, map_err-ok, Bool-cases,
}
use simple_http.Base.Bytes.{Bytes, codes, bytes_eq}
use simple_http.Io.{IoError}
use simple_http.Io.Drive.{drive, Pends, here, later}
use simple_http.Io.Drive.Runs.{drive-Pends}
use simple_http.Uri.{HttpTypes}
use simple_http.Connect.{Destination, scheme, host, port, Connector}
use simple_http.Proxy.Stream.{regular, secured}
use simple_http.Proxy.Tunnel
use simple_http.Proxy.Tunnel.{TunnelIo, Tunnel, io_err, with_stream}
use simple_http.Proxy.Tunnel.Sound.{TunnelLaw, Opened, waits, opens, fails, spent}
use simple_http.Proxy.Tunnel.Establish.{Waits, started, polled, poll-Opened}
use simple_http.Proxy.Routing.{Proxy, match_proxy, destination_dst, proxy_dst}
use simple_http.Proxy.Connector.{
  Headers, TokioTls, ProxyConnector, Stream, wrapped, port_or_443, over_tunnel, connect_tunnel,
  connect_forward, connect_by, connect,
}

module _ (t : TunnelIo) (law : TunnelLaw t) (request : Bytes) where
  Pends-Waits :
      (fuel : ℕ) {a b : Tunnel t} → Pends (Tunnel.poll t fuel) a b → Waits t law request a b
  Pends-Waits fuel (here e) = started e
  Pends-Waits fuel (later p e) = polled fuel (Pends-Waits fuel p) e

  -- A tunnel that is driven to its end over a fresh stream is open.
  pub dig-Opened :
      (polls fuel : ℕ) (s s' : t.Stream) (c c' : t.Connected)
      → law.sent s ≡ []
      → law.received s ≡ []
      → drive polls (Tunnel.poll t fuel) (with_stream t request s c) ≡ ok (s', c')
      → Opened t law request s'
  dig-Opened polls fuel s s' c c' e₁ e₂ h =
      let (last, next, w, r) =
        drive-Pends polls (Tunnel.poll t fuel) (with_stream t request s c) (s', c') h in
      elim (poll-Opened t law request s c fuel e₁ e₂ (Pends-Waits fuel w)) [
        | waits n e st ↦ absurd (ground (arith, r, e))
        | opens s₁ c₁ n e g o ↦
            let same : s₁ ≡ s' = ground (arith, r, e) in subst (Opened t law request) same o
        | fails x e ↦ absurd (ground (arith, r, e))
        | spent e ↦ absurd (ground (arith, r, e))
      ]

-- The inner connector gives streams that have carried nothing yet.
pub record FreshLaw {h : HttpTypes} {t : TunnelIo} (law : TunnelLaw t)
    (inner : Connector h t.Stream t.Connected) : Type 0 where
  pub unsent :
      (dst : Destination h) (s : t.Stream) (c : t.Connected)
      → inner.connect dst ≡ ok (s, c)
      → law.sent s ≡ []
  pub unread :
      (dst : Destination h) (s : t.Stream) (c : t.Connected)
      → inner.connect dst ≡ ok (s, c)
      → law.received s ≡ []

module _ (h : HttpTypes) (hs : Headers) (t : TunnelIo) (law : TunnelLaw t) (k : TokioTls t.Stream)
    {C : Type 0} (inner : C → Connector h t.Stream t.Connected) (fresh : t.Connected)
    (display : h.Uri → Bytes) (polls fuel : ℕ) (this : ProxyConnector h hs t k C)
    (dst : Destination h) where
  -- The stream behind the tunnel: as it is, or in a TLS session for the host.
  pub data Ends (opened : t.Stream) (s : Stream h hs t k) : Type 0 where
    as_it_is : this.tls ≡ none → s ≡ regular opened → Ends opened s
    in_tls :
        (client : k.TlsConnector) (session : k.TlsStream)
        → this.tls ≡ some client
        → k.connect client (host h dst) opened ≡ ok session
        → s ≡ secured session
        → Ends opened s

  -- The way of a connection that has succeeded.
  pub data Taken (s : Stream h hs t k) : Option (Proxy h hs.HeaderMap) → Type 0 where
    direct :
        (io : t.Stream) (c : t.Connected)
        → (inner this.connector).connect dst ≡ ok (io, c)
        → s ≡ regular io
        → Taken s none
    forwarded :
        (p : Proxy h hs.HeaderMap) (target : Destination h) (io : t.Stream) (c : t.Connected)
        → bytes_eq (scheme h dst) (codes "https") ≡ false
        → proxy_dst h hs.HeaderMap (display p.uri) dst p.uri ≡ ok target
        → (inner this.connector).connect target ≡ ok (io, c)
        → s ≡ regular io
        → Taken s (some p)
    tunnelled :
        (p : Proxy h hs.HeaderMap) (target : Destination h) (io opened : t.Stream) (c : t.Connected)
        (request : Bytes)
        → bytes_eq (scheme h dst) (codes "https") ≡ true
        → Tunnel.new t {E = IoError}
            (host h dst)
            (port_or_443 h hs t k (port h dst))
            (hs.entries p.headers)
          ≡ ok request
        → proxy_dst h hs.HeaderMap (display p.uri) dst p.uri ≡ ok target
        → (inner this.connector).connect target ≡ ok (io, c)
        → Opened t law request opened
        → Ends opened s
        → Taken s (some p)

  over_tunnel-Ends :
      (tls : Option k.TlsConnector) (opened : t.Stream) (c c' : t.Connected) (s : Stream h hs t k)
      → this.tls ≡ tls
      → over_tunnel h hs t k fresh tls (host h dst) (opened, c) ≡ ok (s, c')
      → Ends opened s
  unfolding over_tunnel
  over_tunnel-Ends none opened c c' s e r = as_it_is e (sym (ok_pair r).0)
  over_tunnel-Ends (some client) opened c c' s e r =
      let (session, d, f) = ok_parts _ _ r in
      in_tls client session e (map_err-ok io_err _ d) (sym (ok_pair f).0)

  connect_forward-Taken :
      (p : Proxy h hs.HeaderMap) (s : Stream h hs t k) (c : t.Connected)
      → bytes_eq (scheme h dst) (codes "https") ≡ false
      → connect_forward h hs t k inner fresh display polls fuel this dst p ≡ ok (s, c)
      → Taken s (some p)
  unfolding connect_forward
  connect_forward-Taken p s c e r =
      let (target, d, r₁) = ok_parts _ _ r in
      let (connection, i, r₂) = ok_parts _ _ r₁ in
      forwarded p target connection.0 connection.1 e d (map_err-ok (wrapped h hs t k) _ i)
        (sym (ok_pair r₂).0)

  module _ (quiet : FreshLaw law (inner this.connector)) where
    connect_tunnel-Taken :
        (p : Proxy h hs.HeaderMap) (s : Stream h hs t k) (c : t.Connected)
        → bytes_eq (scheme h dst) (codes "https") ≡ true
        → connect_tunnel h hs t k inner fresh display polls fuel this dst p ≡ ok (s, c)
        → Taken s (some p)
    unfolding connect_tunnel
    connect_tunnel-Taken p s c e r =
        let (request, n, r₁) = ok_parts _ _ r in
        let (target, d, r₂) = ok_parts _ _ r₁ in
        let (connection, i, r₃) = ok_parts _ _ r₂ in
        let (opened, o, r₄) = ok_parts _ _ r₃ in
        let (io, c₀) = connection in
        let (io', c₁) = opened in
        let connected = map_err-ok (wrapped h hs t k) _ i in
        tunnelled p target io io' c₀ request e n d connected
          (dig-Opened t law request polls fuel io io' c₀ c₁ (quiet.unsent target io c₀ connected)
            (quiet.unread target io c₀ connected) o)
          (over_tunnel-Ends this.tls io' c₁ c s refl r₄)

    connect_by-Taken :
        (o : Option (Proxy h hs.HeaderMap)) (s : Stream h hs t k) (c : t.Connected)
        → connect_by h hs t k inner fresh display polls fuel this dst o ≡ ok (s, c)
        → Taken s o
    unfolding connect_by
    connect_by-Taken none s c r =
        let (connection, i, r₁) = ok_parts _ _ r in
        direct connection.0 connection.1 (map_err-ok (wrapped h hs t k) _ i) (sym (ok_pair r₁).0)
    connect_by-Taken (some p) s c r = elim (Bool-cases (bytes_eq (scheme h dst) (codes "https"))) [
      | inl e ↦ connect_tunnel-Taken p s c e (rw e at r)
      | inr e ↦ connect_forward-Taken p s c e (rw e at r)
    ]

    -- A connection that succeeds goes to the destination itself where no proxy takes it, and to
    -- the address of the first proxy that does otherwise. An https destination is then reached by
    -- a tunnel that has sent the CONNECT request for its host and port and was granted, and over a
    -- TLS session for the host, where TLS is set; another destination is forwarded in plain.
    pub connect-Taken :
        (s : Stream h hs t k) (c : t.Connected)
        → connect h hs t k inner fresh display polls fuel this dst ≡ ok (s, c)
        → Taken s (match_proxy h hs.HeaderMap this.proxies (destination_dst h hs.HeaderMap dst))
    unfolding connect
    connect-Taken s c r = connect_by-Taken _ s c r
