-- ===== src/Proxy/Stream.antt =====
-- src/proxy/stream.rs: `ProxyStream`, plain or over TLS. The two streams are parameters.
pub mod Dispatch
use simple_http.Base.{ℕ, Bool}
use simple_http.Base.Bytes.{Bytes}
use simple_http.Io.{IoResult, Poll}
use simple_http.Io.Streams.{AsyncIo, Cursor}

pub data ProxyStream (R S : Type 0) : Type 0 where
  regular : R → ProxyStream R S
  secured : S → ProxyStream R S

module _ (regular_io secured_io : AsyncIo) where
  abbrev Either : Type 0
  Either = ProxyStream regular_io.Stream secured_io.Stream

  unfoldable pub read : Either → ℕ → IoResult Bytes × Either
  read (regular s) buf = let (r, s') = regular_io.read s buf in (r, regular s')
  read (secured s) buf = let (r, s') = secured_io.read s buf in (r, secured s')

  unfoldable pub write : Either → Bytes → IoResult ℕ × Either
  write (regular s) buf = let (r, s') = regular_io.write s buf in (r, regular s')
  write (secured s) buf = let (r, s') = secured_io.write s buf in (r, secured s')

  unfoldable pub flush : Either → IoResult (Unit {0}) × Either
  flush (regular s) = let (r, s') = regular_io.flush s in (r, regular s')
  flush (secured s) = let (r, s') = secured_io.flush s in (r, secured s')

  unfoldable pub prepare_uninitialized_buffer : Either → Bytes → Bool × Bytes
  prepare_uninitialized_buffer (regular s) buf = regular_io.prepare_uninitialized_buffer s buf
  prepare_uninitialized_buffer (secured s) buf = secured_io.prepare_uninitialized_buffer s buf

  unfoldable pub read_buf : Either → Bytes → Poll (IoResult ℕ) × Either × Bytes
  read_buf (regular s) buf = let (r, s', buf') = regular_io.read_buf s buf in (r, regular s', buf')
  read_buf (secured s) buf = let (r, s', buf') = secured_io.read_buf s buf in (r, secured s', buf')

  unfoldable pub shutdown : Either → Poll (IoResult (Unit {0})) × Either
  shutdown (regular s) = let (r, s') = regular_io.shutdown s in (r, regular s')
  shutdown (secured s) = let (r, s') = secured_io.shutdown s in (r, secured s')

  unfoldable pub write_buf : Either → Cursor → Poll (IoResult ℕ) × Either × Cursor
  write_buf (regular s) buf =
      let (r, s', buf') = regular_io.write_buf s buf in (r, regular s', buf')
  write_buf (secured s) buf =
      let (r, s', buf') = secured_io.write_buf s buf in (r, secured s', buf')

  -- `ProxyStream` as a stream
  abbrev pub proxy_io : AsyncIo
  proxy_io = record {
    Stream = Either;
    read = read;
    write = write;
    flush = flush;
    prepare_uninitialized_buffer = prepare_uninitialized_buffer;
    read_buf = read_buf;
    shutdown = shutdown;
    write_buf = write_buf;
  }
