-- ===== src/Https/Client/Secure.antt =====
-- Which stream src/https/client.rs gives for a destination.
use simple_http.Base.{
  ℕ, true, false, some, ◌≡◌, refl, arith, Bool-cases, inl, inr, ok, err, ok_parts, map_err-ok,
  ok_pair, subst, sym,
}
use simple_http.Base.Bytes.{codes, bytes_eq}
use simple_http.Io.Streams.{AsyncIo}
use simple_http.Io.Drive.{drive}
use simple_http.Uri.{HttpTypes}
use simple_http.Connect.{Destination, scheme, host, Connector}
use simple_http.Https.Tls
use simple_http.Https.Tls.{Native, Provided, TlsStream}
use simple_http.Https.Stream.{http, https}
use simple_http.Https.Client.{
  TlsClient, HttpsConnector, forced_error, tls_error, Stream, poll, secure, plain, connect,
}

module _ (base : AsyncIo) (n : Native base) (t : TlsClient base n) (h : HttpTypes)
    {C Connected : Type 0} (provided : Provided) (inner : C → Connector h base.Stream Connected)
    (polls : ℕ) (this : HttpsConnector base n t C) (dst : Destination h) where
  -- The stream by the scheme of the destination: over TLS, by a handshake for the host on the
  -- connection of the inner connector, or plain, where TLS is not forced.
  pub data Secured (s : Stream base n t h provided inner) (c : Connected) : Type 0 where
    over_tls :
        (tcp : base.Stream) (conn : n.Session)
        → bytes_eq (scheme h dst) (codes "https") ≡ true
        → (inner this.http).connect dst ≡ ok (tcp, c)
        → drive polls
            (poll base n t)
            (record { inner = some (t.connect this.tls (host h dst) tcp) })
          ≡ ok conn
        → s ≡ https (Tls.new base n conn)
        → Secured s c
    in_plain :
        (tcp : base.Stream)
        → bytes_eq (scheme h dst) (codes "https") ≡ false
        → this.force_https ≡ false
        → (inner this.http).connect dst ≡ ok (tcp, c)
        → s ≡ http tcp
        → Secured s c

  secure-Secured :
      (p : base.Stream × Connected) (s : Stream base n t h provided inner) (c : Connected)
      → bytes_eq (scheme h dst) (codes "https") ≡ true
      → (inner this.http).connect dst ≡ ok p
      → secure base n t h provided inner polls this (host h dst) p ≡ ok (s, c)
      → Secured s c
  unfolding secure
  secure-Secured (tcp, c') s c e i k =
      let (conn, d, f) = ok_parts _ _ k in
      let (p, q) = ok_pair f in
      over_tls tcp conn e (subst (λ x. (inner this.http).connect dst ≡ ok (tcp, x)) q i)
        (map_err-ok (tls_error base n t) _ d) (sym p)

  plain-Secured :
      (p : base.Stream × Connected) (s : Stream base n t h provided inner) (c : Connected)
      → bytes_eq (scheme h dst) (codes "https") ≡ false
      → this.force_https ≡ false
      → (inner this.http).connect dst ≡ ok p
      → plain base n t h provided inner p ≡ ok (s, c)
      → Secured s c
  plain-Secured (tcp, c') s c e f i k =
      let (p, q) = ok_pair k in
      in_plain tcp e f (subst (λ x. (inner this.http).connect dst ≡ ok (tcp, x)) q i) (sym p)

  -- A connection that succeeds is over TLS exactly when the scheme is https: then its session is
  -- that of a handshake for the host, on the connection of the inner connector. It is plain only
  -- where TLS is not forced.
  pub connect-Secured :
      (s : Stream base n t h provided inner) (c : Connected)
      → connect base n t h provided inner polls this dst ≡ ok (s, c)
      → Secured s c
  unfolding connect
  connect-Secured s c k = elim (Bool-cases (bytes_eq (scheme h dst) (codes "https"))) [
    | inl e ↦ let (p, i, f) = ok_parts _ _ (rw e at k) in secure-Secured p s c e i f
    | inr e ↦ elim (Bool-cases this.force_https) [
      | inl forced ↦ absurd (ground (arith, k, e, forced))
      | inr free ↦
          let (p, i, f) = ok_parts _ _ (rw e at rw free at k) in plain-Secured p s c e free i f
    ]
  ]

  -- Where TLS is forced, another scheme is refused, whatever the inner connector.
  pub connect-forced :
      this.force_https ≡ true
      → bytes_eq (scheme h dst) (codes "https") ≡ false
      → connect base n t h provided inner polls this dst ≡ err (forced_error base n t)
  unfolding connect
  connect-forced forced e = rw e (rw forced refl)
