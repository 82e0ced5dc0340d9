-- ===== src/Proxy/Connector/Granted.antt =====
-- That src/proxy/mod.rs reaches an https destination through a proxy that grants the tunnel.
use simple_http.Base.{
  ℕ, suc, ◌+◌, ◌≤◌, ◌<◌, true, Option, none, some, List, [], ◌∷◌, ◌≡◌, refl, ap, arith, length, ok,
  err, ◌⊎◌, inl, inr, unwrap, ◌>>=◌,
}
use simple_http.Base.Bytes.{Bytes, codes, bytes_eq}
use simple_http.Io.{IoError, other}
use simple_http.Uri.{HttpTypes}
use simple_http.Connect.{Destination, scheme, host, port, Connector}
use simple_http.Proxy.Tunnel
use simple_http.Proxy.Tunnel.{TunnelIo, headers_display}
use simple_http.Proxy.Stream.{regular, secured}
use simple_http.Proxy.Tunnel.Sound.{TunnelLaw, Opened}
use simple_http.Proxy.Tunnel.Granting.{PeerAnswers, IsGrant}
use simple_http.Proxy.Tunnel.Granted.{drive-granted}
use simple_http.Proxy.Routing.{Proxy, match_proxy, destination_dst, proxy_dst}
use simple_http.Proxy.Connector.{
  Headers, TokioTls, Connected, ProxyConnector, port_or_443, over_tunnel, connect_tunnel,
  connect_by, connect,
}
use simple_http.Proxy.Connector.Routes.{dig-Opened}

cons_length :
    {A : Type 0} (o : Option A) (first : ℕ) (f : A → Bytes) {out : Bytes}
    → (unwrap {E = IoError} o >>= λ a. ok (first ∷ f a)) ≡ ok out
    → 0 < length out
cons_length none first f e = absurd cc
cons_length (some a) first f {out} e =
    let same : first ∷ f a ≡ out = cc in omega (arith, ap length same)

-- The CONNECT request is not empty.
new-length :
    (t : TunnelIo) (name : Bytes) (p : ℕ) (headers : List (Bytes × Bytes)) {request : Bytes}
    → Tunnel.new t {E = IoError} name p headers ≡ ok request
    → 0 < length request
unfolding Tunnel.new
new-length t name p headers e = cons_length (headers_display t headers) b'C' _ e

-- The handshake of a TLS session ends, with the session or an error.
pub record HandshakeLaw {S : Type 0} (k : TokioTls S) : Type 0 where
  pub ends :
      (client : k.TlsConnector) (name : Bytes) (s : S)
      → ((session : k.TlsStream) × (k.connect client name s ≡ ok session))
        ⊎ ((e : Bytes) × (k.connect client name s ≡ err e))

module _ (h : HttpTypes) (hs : Headers) (t : TunnelIo) (k : TokioTls t.Stream) (fresh : t.Connected)
    (name : Bytes) (opened : t.Stream) (c : t.Connected) where
  -- What a connection over an open tunnel gives: the tunnel itself, where TLS is not set; where it
  -- is, the session of a handshake for the host over the tunnel, marked as proxied, or the error of
  -- the handshake.
  pub data Tunneled (tls : Option k.TlsConnector) (m : Connected h hs t k) : Type 0 where
    in_clear : tls ≡ none → m ≡ ok (regular opened, c) → Tunneled tls m
    over_tls :
        (client : k.TlsConnector) (session : k.TlsStream)
        → tls ≡ some client
        → k.connect client name opened ≡ ok session
        → m ≡ ok (secured session, t.proxy true fresh)
        → Tunneled tls m
    tls_failed :
        (client : k.TlsConnector) (e : Bytes)
        → tls ≡ some client
        → k.connect client name opened ≡ err e
        → m ≡ err (record { kind = other; message = e })
        → Tunneled tls m

  over_tunnel-Tunneled :
      HandshakeLaw k
      → (tls : Option k.TlsConnector)
      → Tunneled tls (over_tunnel h hs t k fresh tls name (opened, c))
  unfolding over_tunnel
  over_tunnel-Tunneled law none = in_clear refl refl
  over_tunnel-Tunneled law (some client) = elim (law.ends client name opened) [
    | inl (session, e) ↦ over_tls client session refl e (rw e refl)
    | inr (x, e) ↦ tls_failed client x refl e (rw e refl)
  ]

module _ (h : HttpTypes) (hs : Headers) (t : TunnelIo) (law : TunnelLaw t)
    (peer : PeerAnswers t law) (k : TokioTls t.Stream) {C : Type 0}
    (inner : C → Connector h t.Stream t.Connected) (fresh : t.Connected) (display : h.Uri → Bytes)
    (this : ProxyConnector h hs t k C) (dst : Destination h) where
  -- An https destination that a proxy takes is reached, where the CONNECT request can be made, the
  -- inner connector reaches the proxy by a fresh stream, and the proxy grants the tunnel: it gives
  -- the open tunnel, where TLS is not set; where it is, the session of a handshake for the host over
  -- the tunnel, or the error of that handshake, which ends. The tunnel is polled once more than its
  -- stream is not ready, each time with rounds for the bytes of the request and of the answer.
  pub connect-granted :
      (handshakes : HandshakeLaw k) (polls fuel : ℕ) (p : Proxy h hs.HeaderMap)
      (request answer : Bytes) (target : Destination h) (io : t.Stream) (c : t.Connected)
      → match_proxy h hs.HeaderMap this.proxies (destination_dst h hs.HeaderMap dst) ≡ some p
      → bytes_eq (scheme h dst) (codes "https") ≡ true
      → Tunnel.new t {E = IoError}
          (host h dst)
          (port_or_443 h hs t k (port h dst))
          (hs.entries p.headers)
        ≡ ok request
      → proxy_dst h hs.HeaderMap (display p.uri) dst p.uri ≡ ok target
      → (inner this.connector).connect target ≡ ok (io, c)
      → law.sent io ≡ []
      → law.received io ≡ []
      → IsGrant answer
      → peer.incoming io ≡ answer
      → peer.stalls io ≤ polls
      → length request + length answer < fuel
      → (opened : t.Stream) × Opened t law request opened
        × Tunneled h hs t k fresh
            (host h dst)
            opened
            (t.proxy true c)
            this.tls
            (connect h hs t k inner fresh display (suc polls) fuel this dst)
  unfolding connect connect_by connect_tunnel
  connect-granted handshakes polls fuel p request answer target io c m s n d i e₁ e₂ grant a w f =
      let (opened, o) =
        drive-granted t law peer grant c polls fuel request io
          (new-length t _ _ (hs.entries p.headers) n) a w f in
      (
        opened,
        dig-Opened t law request (suc polls) fuel io opened c (t.proxy true c) e₁ e₂ o,
        rw m (
            rw s (
              rw n (
                rw d (
                  rw i (
                    rw o (
                      over_tunnel-Tunneled h hs t k fresh (host h dst) opened (t.proxy true c)
                        handshakes this.tls)))))),
      )
