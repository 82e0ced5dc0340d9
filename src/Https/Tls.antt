-- ===== src/Https/Tls.antt =====
-- src/https/stream.rs: `TlsStream`, the asynchronous stream over a session of `native_tls`.
pub mod Closing
use simple_http.Base.{ℕ, Bool, ◌⊎◌, inl, inr}
use simple_http.Base.Bytes.{Bytes}
use simple_http.Io.{ErrorKind, would_block, IoError, IoResult, Poll, pending, ready}
use simple_http.Io.Streams.{AsyncIo, Cursor}

-- `native_tls::TlsStream<T>`, where `get_mut` is a read of the transport and a write of it
pub record Native (base : AsyncIo) : Type 1 where
  pub Session : Type 0
  pub read : Session → ℕ → IoResult Bytes × Session
  pub write : Session → Bytes → IoResult ℕ × Session
  pub flush : Session → IoResult (Unit {0}) × Session
  pub shutdown : Session → IoResult (Unit {0}) × Session
  pub transport : Session → base.Stream
  pub with_transport : base.Stream → Session → Session

-- The methods that the traits of `tokio_io` provide, from `read` and `write`.
pub record Provided : Type 1 where
  pub prepare_uninitialized_buffer : Bytes → Bool × Bytes
  pub read_buf :
      {S : Type 0} → (S → ℕ → IoResult Bytes × S) → S → Bytes → Poll (IoResult ℕ) × S × Bytes
  pub write_buf :
      {S : Type 0} → (S → Bytes → IoResult ℕ × S) → S → Cursor → Poll (IoResult ℕ) × S × Cursor

module _ (base : AsyncIo) (n : Native base) where
  pub record TlsStream : Type 0 where
    pub inner : n.Session

  unfoldable pub new : n.Session → TlsStream
  new inner = record { inner = inner }

  -- `From<native_tls::TlsStream<T>>`
  unfoldable pub from : n.Session → TlsStream
  from stream = record { inner = stream }

  unfoldable pub read : TlsStream → ℕ → IoResult Bytes × TlsStream
  read this buf = let (r, inner) = n.read this.inner buf in (r, record { inner = inner })

  unfoldable pub write : TlsStream → Bytes → IoResult ℕ × TlsStream
  write this buf = let (r, inner) = n.write this.inner buf in (r, record { inner = inner })

  unfoldable pub flush : TlsStream → IoResult (Unit {0}) × TlsStream
  flush this = let (r, inner) = n.flush this.inner in (r, record { inner = inner })

  -- `self.inner.get_mut().shutdown()`
  unfoldable pub shutdown_transport : n.Session → Poll (IoResult (Unit {0})) × TlsStream
  shutdown_transport inner =
      let (p, transport) = base.shutdown (n.transport inner) in
      (p, record { inner = n.with_transport transport inner })

  -- the arm of `Err`, by the kind of the error
  abbrev pub failed_shutdown :
      IoError → ErrorKind → n.Session → Poll (IoResult (Unit {0})) × TlsStream
  failed_shutdown e would_block inner = (pending, record { inner = inner })
  failed_shutdown e kind inner = (ready (inl e), record { inner = inner })

  -- by the answer of the session
  unfoldable pub after_shutdown :
      IoResult (Unit {0}) × n.Session → Poll (IoResult (Unit {0})) × TlsStream
  unfolding shutdown_transport
  after_shutdown (inr done, inner) = shutdown_transport inner
  after_shutdown (inl e, inner) = failed_shutdown e e.kind inner

  unfoldable pub shutdown : TlsStream → Poll (IoResult (Unit {0})) × TlsStream
  unfolding after_shutdown
  shutdown this = after_shutdown (n.shutdown this.inner)

  -- `TlsStream` as a stream
  abbrev pub tls_io : Provided → AsyncIo
  tls_io provided = record {
    Stream = TlsStream;
    read = read;
    write = write;
    flush = flush;
    prepare_uninitialized_buffer = λ s buf. provided.prepare_uninitialized_buffer buf;
    read_buf = λ s buf. provided.read_buf read s buf;
    shutdown = shutdown;
    write_buf = λ s buf. provided.write_buf write s buf;
  }
