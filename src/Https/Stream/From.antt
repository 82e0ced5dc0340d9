-- ===== src/Https/Stream/From.antt =====
-- src/https/stream.rs: a `MaybeHttpsStream` of a session of the TLS library.
use simple_http.Io.Streams.{AsyncIo}
use simple_http.Https.Tls
use simple_http.Https.Tls.{Native, Provided, tls_io}
use simple_http.Https.Stream.{MaybeHttpsStream, https}

module _ (base : AsyncIo) (n : Native base) (provided : Provided) where
  -- `From<native_tls::TlsStream<T>>`
  unfoldable from_session : n.Session → MaybeHttpsStream base (tls_io base n provided)
  from_session inner = https (Tls.from base n inner)
