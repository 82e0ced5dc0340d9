-- ===== src/Https/Client.antt =====
-- src/https/client.rs: the connector that adds TLS to another one, and the future of the handshake.
-- The TLS library is a parameter.
pub mod Handshakes
pub mod Secure
use simple_http.Base.{
  ℕ, Bool, true, false, not, ◌&&◌, Option, none, some, ◌⊎◌, inl, inr, if◌then◌else◌, Outcome, ok,
  err, panic, ◌>>=◌, map_err,
}
use simple_http.Base.Bytes.{Bytes, codes, bytes_eq}
use simple_http.Io.{IoError, other, Poll, pending, ready}
use simple_http.Io.Streams.{AsyncIo}
use simple_http.Io.Drive.{drive}
use simple_http.Uri.{HttpTypes}
use simple_http.Connect.{Destination, scheme, host, Connector}
use simple_http.Https.Tls
use simple_http.Https.Tls.{Native, Provided, tls_io}
use simple_http.Https.Stream.{MaybeHttpsStream, http, https}

-- `native_tls::HandshakeError<T>`
pub data HandshakeError (TlsError Mid : Type 0) : Type 0 where
  failure : TlsError → HandshakeError TlsError Mid
  would_block : Mid → HandshakeError TlsError Mid

-- `native_tls::TlsConnector`, and a handshake that has begun
pub record TlsClient (base : AsyncIo) (n : Native base) : Type 1 where
  pub TlsConnector : Type 0
  pub TlsError : Type 0
  pub MidHandshake : Type 0
  -- `TlsConnector::builder().build()`
  pub build : TlsError ⊎ TlsConnector
  pub connect :
      TlsConnector → Bytes → base.Stream → HandshakeError TlsError MidHandshake ⊎ n.Session
  pub handshake : MidHandshake → HandshakeError TlsError MidHandshake ⊎ n.Session
  pub to_string : TlsError → Bytes

module _ (base : AsyncIo) (n : Native base) (t : TlsClient base n) where
  open t use {TlsConnector, TlsError, MidHandshake}

  abbrev pub Handshake : Type 0
  Handshake = HandshakeError TlsError MidHandshake ⊎ n.Session

  pub record Handshaking : Type 0 where
    pub inner : Option Handshake

  abbrev pub HandshakePolled : Type 0
  HandshakePolled = Outcome TlsError (Poll n.Session × Handshaking)

  abbrev pub taken : Handshaking
  taken = record { inner = none }

  -- the answer of `mid.handshake()`
  abbrev pub after_handshake : Handshake → HandshakePolled
  after_handshake (inr stream) = ok (ready stream, taken)
  after_handshake (inl (failure e)) = err e
  after_handshake (inl (would_block mid)) =
      ok (pending, record { inner = some (inl (would_block mid)) })

  -- by what `self.inner.take()` gives
  unfoldable pub poll_inner : Option Handshake → HandshakePolled
  poll_inner none = panic
  poll_inner (some (inr stream)) = ok (ready stream, taken)
  poll_inner (some (inl (would_block mid))) = after_handshake (t.handshake mid)
  poll_inner (some (inl (failure e))) = err e

  -- `Handshaking::poll`
  unfoldable pub poll : Handshaking → HandshakePolled
  unfolding poll_inner
  poll this = poll_inner this.inner

  pub record HttpsConnector (C : Type 0) : Type 0 where
    pub force_https : Bool
    pub http : C
    pub tls : TlsConnector

  module _ {C : Type 0} where
    -- `From<(T, TlsConnector)>`
    unfoldable pub from : C → TlsConnector → HttpsConnector C
    from connector tls = record { force_https = false; http = connector; tls = tls }

    unfoldable pub https_only : Bool → HttpsConnector C → HttpsConnector C
    https_only enable this = record this { force_https = enable }

    -- the deprecated name of `https_only`
    unfoldable pub force_https : Bool → HttpsConnector C → HttpsConnector C
    force_https enable this = record this { force_https = enable }

  abbrev pub forced_error : IoError
  forced_error = record { kind = other; message = codes "HTTPS scheme forced but can't be used" }

  abbrev pub tls_error : TlsError → IoError
  tls_error e = record { kind = other; message = t.to_string e }

  module _ (h : HttpTypes) {C Connected : Type 0} (provided : Provided)
      (inner : C → Connector h base.Stream Connected) where
    abbrev pub Stream : Type 0
    Stream = MaybeHttpsStream base (tls_io base n provided)

    -- the future behind the TCP connection: the handshake, polled `polls` times at most
    unfoldable pub secure :
        ℕ
        → HttpsConnector C
        → Bytes
        → base.Stream × Connected
        → Outcome IoError (Stream × Connected)
    secure polls this name (tcp, connected) = do
      conn ←
          map_err tls_error
            (drive polls poll (record { inner = some (t.connect this.tls name tcp) }))
      ok (https (Tls.new base n conn), connected)

    abbrev pub plain : base.Stream × Connected → Outcome IoError (Stream × Connected)
    plain (tcp, connected) = ok (http tcp, connected)

    unfoldable pub connect :
        ℕ → HttpsConnector C → Destination h → Outcome IoError (Stream × Connected)
    unfolding secure
    connect polls this dst =
        let is_https = bytes_eq (scheme h dst) (codes "https") in
        let connecting = (inner this.http).connect dst in
        if not is_https && this.force_https
        then err forced_error
        else if is_https
        then connecting >>= secure polls this (host h dst)
        else connecting >>= plain

    -- `HttpsConnector` as a connector
    abbrev pub https_connector : ℕ → HttpsConnector C → Connector h Stream Connected
    https_connector polls this = record { connect = connect polls this }
