-- ===== src/Https/Stream.antt =====
-- src/https/stream.rs: `MaybeHttpsStream`, plain or over TLS. The two streams are parameters.
pub mod Dispatch
pub mod From
use simple_http.Base.{ℕ, Bool}
use simple_http.Base.Bytes.{Bytes}
use simple_http.Io.{IoResult, Poll}
use simple_http.Io.Streams.{AsyncIo, Cursor}

module _ (plain tls : AsyncIo) where
  pub data MaybeHttpsStream : Type 0 where
    http : plain.Stream → MaybeHttpsStream
    https : tls.Stream → MaybeHttpsStream

  -- `From<T>`
  unfoldable from_plain : plain.Stream → MaybeHttpsStream
  from_plain inner = http inner

  -- `From<TlsStream<T>>`
  unfoldable from_tls : tls.Stream → MaybeHttpsStream
  from_tls inner = https inner

  unfoldable pub read : MaybeHttpsStream → ℕ → IoResult Bytes × MaybeHttpsStream
  read (http s) buf = let (r, s') = plain.read s buf in (r, http s')
  read (https s) buf = let (r, s') = tls.read s buf in (r, https s')

  unfoldable pub write : MaybeHttpsStream → Bytes → IoResult ℕ × MaybeHttpsStream
  write (http s) buf = let (r, s') = plain.write s buf in (r, http s')
  write (https s) buf = let (r, s') = tls.write s buf in (r, https s')

  unfoldable pub flush : MaybeHttpsStream → IoResult (Unit {0}) × MaybeHttpsStream
  flush (http s) = let (r, s') = plain.flush s in (r, http s')
  flush (https s) = let (r, s') = tls.flush s in (r, https s')

  unfoldable pub prepare_uninitialized_buffer : MaybeHttpsStream → Bytes → Bool × Bytes
  prepare_uninitialized_buffer (http s) buf = plain.prepare_uninitialized_buffer s buf
  prepare_uninitialized_buffer (https s) buf = tls.prepare_uninitialized_buffer s buf

  unfoldable pub read_buf : MaybeHttpsStream → Bytes → Poll (IoResult ℕ) × MaybeHttpsStream × Bytes
  read_buf (http s) buf = let (r, s', buf') = plain.read_buf s buf in (r, http s', buf')
  read_buf (https s) buf = let (r, s', buf') = tls.read_buf s buf in (r, https s', buf')

  unfoldable pub shutdown : MaybeHttpsStream → Poll (IoResult (Unit {0})) × MaybeHttpsStream
  shutdown (http s) = let (r, s') = plain.shutdown s in (r, http s')
  shutdown (https s) = let (r, s') = tls.shutdown s in (r, https s')

  unfoldable pub write_buf :
      MaybeHttpsStream → Cursor → Poll (IoResult ℕ) × MaybeHttpsStream × Cursor
  write_buf (http s) buf = let (r, s', buf') = plain.write_buf s buf in (r, http s', buf')
  write_buf (https s) buf = let (r, s', buf') = tls.write_buf s buf in (r, https s', buf')

  -- `MaybeHttpsStream` as a stream
  abbrev pub maybe_https_io : AsyncIo
  maybe_https_io = record {
    Stream = MaybeHttpsStream;
    read = read;
    write = write;
    flush = flush;
    prepare_uninitialized_buffer = prepare_uninitialized_buffer;
    read_buf = read_buf;
    shutdown = shutdown;
    write_buf = write_buf;
  }
