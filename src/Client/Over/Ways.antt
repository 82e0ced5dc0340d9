-- ===== src/Client/Over/Ways.antt =====
-- Over which connection src/lib.rs sends a request, by the connector of the client.
use simple_http.Base.{
  ℕ, true, false, List, ◌≡◌, refl, Outcome, ok, err, panic, out_of_fuel, arith, Build, ◌>>=◌,
}
use simple_http.Base.Bytes.{Bytes, codes, bytes_eq}
use simple_http.Base.Text.{Unicode}
use simple_http.Uri.{HttpTypes}
use simple_http.Io.{IoError, IoResult}
use simple_http.Io.Streams.{AsyncIo}
use simple_http.Connect.{Connector, scheme}
use simple_http.Request.{Request}
use simple_http.Response
use simple_http.Body
use simple_http.Https.Tls.{Native, Provided, tls_io}
use simple_http.Https.Stream.{MaybeHttpsStream}
use simple_http.Https.Client.{TlsClient, HttpsConnector, https_connector, forced_error}
use simple_http.Https.Client.Secure.{Secured, connect-Secured, connect-forced}
use simple_http.Proxy.Connector.{Stream}
use simple_http.Client.{request}
use simple_http.Client.Receiving.{TransportLaw}
use simple_http.Client.Sending.{SendLaw}
use simple_http.Client.Exchange.{Exchanged, request-Exchanged}
use simple_http.Client.Over.{TokioIo, over, connection, dial, request_by}

module _ {R Connected : Type 0} where
  connection-ok :
      (r : Outcome IoError (R × Connected)) {conn : R}
      → r >>= connection ≡ ok conn
      → (c : Connected) × (r ≡ ok (conn, c))
  connection-ok (ok (s, c)) {conn} e = let same : s ≡ conn = ground arith in (c, rw same refl)
  connection-ok (err x) e = absurd cc
  connection-ok panic e = absurd cc
  connection-ok out_of_fuel e = absurd cc

  dial-ok :
      (h : HttpTypes) (inner : Connector h R Connected) (uri : h.Uri) {conn : R}
      → dial h inner uri ≡ ok conn
      → (c : Connected) × (inner.connect (record { uri = uri }) ≡ ok (conn, c))
  unfolding dial
  dial-ok h inner uri e = connection-ok (inner.connect (record { uri = uri })) e

module _ (base : AsyncIo) (n : Native base) (t : TlsClient base n) (h : HttpTypes)
    {C Connected : Type 0} (provided : Provided) (inner : C → Connector h base.Stream Connected)
    (polls : ℕ) (w : TokioIo (MaybeHttpsStream base (tls_io base n provided))) where
  abbrev Sent : Type 0
  Sent = Response.Response h (Body.Body (MaybeHttpsStream base (tls_io base n provided)))

  abbrev send :
      HttpsConnector base n t C
      → Unicode
      → Build
      → Bytes
      → Request h (List (IoResult Bytes))
      → Outcome IoError Sent
  send this u build uninit req =
      request_by h (over w) (https_connector base n t h provided inner polls)
        (record { inner = this }) u build uninit req

  -- A request that succeeds by an https connector has its head and its body on the wire whole and
  -- in order, its response is made of what was read, and the connection under both is over TLS, by
  -- a handshake for the host, exactly when the scheme is https.
  pub request_by-Secured :
      (law : TransportLaw (over w)) (sends : SendLaw (over w)) (this : HttpsConnector base n t C)
      (u : Unicode) (build : Build) (uninit : Bytes) (req : Request h (List (IoResult Bytes)))
      (res : Sent)
      → send this u build uninit req ≡ ok res
      → (e : Exchanged h
          (over w)
          (dial h (https_connector base n t h provided inner polls this))
          sends
          u
          build
          uninit
          req
          res)
        × (c : Connected) × Secured base n t h provided inner polls this
            (record { uri = req.uri })
            e.opened
            c
  unfolding request_by
  request_by-Secured law sends this u build uninit req res r =
      let way = https_connector base n t h provided inner polls this in
      let e = request-Exchanged h (over w) (dial h way) law sends u build uninit req r in
      let (c, i) = dial-ok h way req.uri e.connected in
      (
        e,
        c,
        connect-Secured base n t h provided inner polls this (record { uri = req.uri }) e.opened c
            i,
      )

  -- Where TLS is forced, a request of another scheme is refused, and nothing is sent.
  request_by-forced :
      (this : HttpsConnector base n t C) (u : Unicode) (build : Build) (uninit : Bytes)
      (req : Request h (List (IoResult Bytes)))
      → this.force_https ≡ true
      → bytes_eq (scheme h (record { uri = req.uri })) (codes "https") ≡ false
      → send this u build uninit req ≡ err (forced_error base n t)
  unfolding request_by request dial
  request_by-forced this u build uninit req forced other =
      rw
        (connect-forced base n t h provided inner polls this (record { uri = req.uri }) forced
          other)
        refl
