-- ===== src/Https/Default.antt =====
-- src/https/client.rs: the connectors that `HttpsConnector` makes by itself, over the connector of
-- src/http/mod.rs. TLS is set over its TCP streams.
use simple_http.Base.{
  ℕ, suc, ◌≤◌, false, none, some, List, ◌⊎◌, inl, inr, ◌≡◌, refl, ◌∙◌, Outcome, ok, err,
}
use simple_http.Base.Bytes.{Bytes, codes}
use simple_http.Io.{IoError, ready}
use simple_http.Io.Streams.{AsyncIo, StreamCalls, with_calls}
use simple_http.Io.Drive.{drive}
use simple_http.Uri.{HttpTypes}
use simple_http.Connect.{Destination, scheme, host}
use simple_http.Http.Dns.{IpAddr, SocketAddr, AddrText}
use simple_http.Http.Tcp
use simple_http.Http.Tcp.{TcpIo, ConnectingTcp}
use simple_http.Http.Connecting
use simple_http.Http.Connecting.{
  Resolve, SocketIo, HttpConnector, http_connector, enforce_http, port_or, connect_host,
}
use simple_http.Http.Connecting.Resolved.{Answers, at_port, connector-Answers, connect-free}
use simple_http.Https.Tls
use simple_http.Https.Tls.{Native, Provided, tls_io}
use simple_http.Https.Stream.{MaybeHttpsStream, https}
use simple_http.Https.Client
use simple_http.Https.Client.{TlsClient, HttpsConnector, from, tls_error, secure, poll}
use simple_http.Https.Client.Handshakes.{Settles, drive-Settles, outcome}

module _ (h : HttpTypes) (t : TcpIo) (k : SocketIo t) (r : Resolve)
    (calls : StreamCalls t.TcpStream) where
  abbrev pub base : AsyncIo
  base = with_calls t.TcpStream calls

  module _ (n : Native base) (c : TlsClient base n) where
    open c use {TlsConnector, TlsError}

    abbrev pub Whole : Type 0
    Whole = HttpsConnector base n c (HttpConnector h t k r)

    unfoldable pub new_with_resolver_ : r.Resolver → TlsConnector → Whole
    unfolding from enforce_http Connecting.new_with_resolver
    new_with_resolver_ resolver tls =
        let http = Connecting.new_with_resolver h t k r resolver in
        from base n c (enforce_http h t k r false http) tls

    unfoldable pub new_with_resolver : r.Resolver → TlsError ⊎ Whole
    unfolding new_with_resolver_
    new_with_resolver resolver = elim c.build [
      | inl e ↦ inl e
      | inr tls ↦ inr (new_with_resolver_ resolver tls)
    ]

    -- `ares` is the static resolver of src/http/mod.rs.
    unfoldable pub new_ : r.Resolver → ℕ → TlsConnector → Whole
    unfolding from enforce_http Connecting.new Connecting.new_with_resolver
    new_ ares threads tls =
        let http = Connecting.new h t k r ares threads in
        from base n c (enforce_http h t k r false http) tls

    unfoldable pub new : r.Resolver → ℕ → TlsError ⊎ Whole
    unfolding new_
    new ares threads = elim c.build [ inl e ↦ inl e | inr tls ↦ inr (new_ ares threads tls) ]

    module _ (text : AddrText) (now : t.Instant) (provided : Provided) where
      abbrev pub WholeStream : Type 0
      WholeStream = MaybeHttpsStream base (tls_io base n provided)

      -- the TCP connection and the handshake polled so many times at most
      abbrev pub connect_whole :
          ℕ → ℕ → Whole → Destination h → Outcome IoError (WholeStream × k.Connected)
      connect_whole tcp_polls tls_polls =
          Client.connect base n c h provided (http_connector h t k r text now tcp_polls) tls_polls

      -- what a handshake gives to a connection
      abbrev pub given :
          k.Connected → TlsError ⊎ n.Session → Outcome IoError (WholeStream × k.Connected)
      given connected (inl e) = err (tls_error base n c e)
      given connected (inr session) = ok (https (Tls.new base n session), connected)

      secure-given :
          (tls_polls : ℕ) (this : Whole) (name : Bytes) (tcp : t.TcpStream)
          (connected : k.Connected) (result : TlsError ⊎ n.Session)
          → drive tls_polls (poll base n c) (record { inner = some (c.connect this.tls name tcp) })
            ≡ outcome base n c result
          → secure base n c h provided
              (http_connector h t k r text now 1)
              tls_polls
              this
              name
              (tcp, connected)
            ≡ given connected result
      unfolding secure
      secure-given tls_polls this name tcp connected (inl e) p = rw p refl
      secure-given tls_polls this name tcp connected (inr session) p = rw p refl

      connect-https :
          (tcp_polls tls_polls : ℕ) (this : Whole) (dst : Destination h) (name : Bytes)
          (tcp : t.TcpStream) (connected : k.Connected)
          → h.scheme_part dst.uri ≡ some (codes "https")
          → h.host dst.uri ≡ some name
          → (http_connector h t k r text now tcp_polls this.http).connect dst ≡ ok (tcp, connected)
          → connect_whole tcp_polls tls_polls this dst
            ≡ secure base n c h provided
                (http_connector h t k r text now 1)
                tls_polls
                this
                name
                (tcp, connected)
      unfolding Client.connect scheme host
      connect-https tcp_polls tls_polls this dst name tcp connected s e p = rw s (rw e (rw p refl))

      module _ (ares : r.Resolver) (threads : ℕ) (tls : TlsConnector) (dst : Destination h)
          (name : Bytes) where
        abbrev inner : HttpConnector h t k r
        inner = (new_ ares threads tls).http

        takes :
            h.scheme_part dst.uri ≡ some (codes "https")
            → h.host dst.uri ≡ some name
            → Connecting.connect h t k r inner dst.uri
              ≡ connect_host h t k r inner dst.uri (some name)
        unfolding new_ from enforce_http Connecting.new Connecting.new_with_resolver
        takes s e = connect-free h t k r text now inner dst.uri (codes "https") name refl s e

        inner-Answers :
            {rounds : ℕ} (polls : ℕ) (ips : List IpAddr) (next : ConnectingTcp t)
            (sock sock₁ : t.TcpStream) (peer : SocketAddr)
            → h.scheme_part dst.uri ≡ some (codes "https")
            → h.host dst.uri ≡ some name
            → text.parse_v4 name ≡ none
            → text.parse_v6 name ≡ none
            → Answers r rounds (r.resolve ares name) (inr ips)
            → rounds ≤ polls
            → Tcp.poll t none (
                Tcp.new t now none
                  (at_port (port_or 443 (h.port_u16 dst.uri)) ips)
                  (some (k.from_millis 300))
                  false)
              ≡ ok (ready sock, next)
            → k.set_nodelay false sock ≡ ok sock₁
            → k.peer_addr sock₁ ≡ ok peer
            → (http_connector h t k r text now (suc polls) inner).connect dst
              ≡ ok (sock₁, k.with_extra (record { remote_addr = peer }))
        unfolding new_ from enforce_http Connecting.new Connecting.new_with_resolver connect_host
        inner-Answers polls ips next sock sock₁ peer s e v4 v6 a le p k₁ k₂ =
            connector-Answers h t k r text now inner dst name (takes s e) v4 v6 polls
              (port_or 443 (h.port_u16 dst.uri)) ips next sock sock sock₁ peer (rw s refl) a le p
              refl k₁ k₂

      -- Where TLS can be set up, `HttpsConnector::new` gives a connector that takes an https
      -- destination whose host is a name by one poll more than the lookup of the name waits, and
      -- as many polls as the handshake blocks, one at least: where the lookup finds addresses of
      -- which one is connected at once, at the port of the destination or 443, it gives the
      -- session of a handshake for the host over that connection, or the error of the handshake.
      pub new-given :
          (ares : r.Resolver) (threads : ℕ) (tls : TlsConnector) (dst : Destination h)
          (name : Bytes) {rounds blocked : ℕ} (polls tls_polls : ℕ) (ips : List IpAddr)
          (next : ConnectingTcp t) (sock sock₁ : t.TcpStream) (peer : SocketAddr)
          (result : TlsError ⊎ n.Session)
          → c.build ≡ inr tls
          → h.scheme_part dst.uri ≡ some (codes "https")
          → h.host dst.uri ≡ some name
          → text.parse_v4 name ≡ none
          → text.parse_v6 name ≡ none
          → Answers r rounds (r.resolve ares name) (inr ips)
          → rounds ≤ polls
          → Tcp.poll t none (
              Tcp.new t now none
                (at_port (port_or 443 (h.port_u16 dst.uri)) ips)
                (some (k.from_millis 300))
                false)
            ≡ ok (ready sock, next)
          → k.set_nodelay false sock ≡ ok sock₁
          → k.peer_addr sock₁ ≡ ok peer
          → Settles base n c blocked (c.connect tls name sock₁) result
          → blocked ≤ suc tls_polls
          → (this : Whole) × (new ares threads ≡ inr this)
            × (connect_whole (suc polls) (suc tls_polls) this dst
                ≡ given (k.with_extra (record { remote_addr = peer })) result)
      unfolding new new_ from
      new-given ares threads tls dst name polls tls_polls ips next sock sock₁ peer result b s e v4
            v6 a le p k₁ k₂ st bound =
          (
            new_ ares threads tls,
            rw b refl,
            connect-https (suc polls) (suc tls_polls) (new_ ares threads tls) dst name sock₁
                  (k.with_extra (record { remote_addr = peer })) s e
                  (inner-Answers ares threads tls dst name polls ips next sock sock₁ peer s e v4 v6
                    a le p k₁ k₂)
                ∙ secure-given (suc tls_polls) (new_ ares threads tls) name sock₁
                    (k.with_extra (record { remote_addr = peer })) result
                    (drive-Settles base n c tls_polls st bound),
          )
