-- ===== src/Proxy/Stream/Dispatch.antt =====
-- That a stream of src/proxy/stream.rs is the stream that it holds.
use simple_http.Base.{List, ◌≡◌, refl}
use simple_http.Io.Streams.{
  AsyncIo, Call, run, Embeds, run-Embeds, read_call, write_call, flush_call, prepare_call,
  read_buf_call, shutdown_call, write_buf_call,
}
use simple_http.Proxy.Stream.{
  regular, secured, proxy_io, read, write, flush, prepare_uninitialized_buffer, read_buf, shutdown,
  write_buf,
}

module _ (plain tls : AsyncIo) where
  regular-Embeds : Embeds plain (proxy_io plain tls) (λ s. regular s)
  unfolding read write flush prepare_uninitialized_buffer read_buf shutdown write_buf
  regular-Embeds (read_call n) s = refl
  regular-Embeds (write_call buf) s = refl
  regular-Embeds flush_call s = refl
  regular-Embeds (prepare_call buf) s = refl
  regular-Embeds (read_buf_call buf) s = refl
  regular-Embeds shutdown_call s = refl
  regular-Embeds (write_buf_call buf) s = refl

  secured-Embeds : Embeds tls (proxy_io plain tls) (λ s. secured s)
  unfolding read write flush prepare_uninitialized_buffer read_buf shutdown write_buf
  secured-Embeds (read_call n) s = refl
  secured-Embeds (write_call buf) s = refl
  secured-Embeds flush_call s = refl
  secured-Embeds (prepare_call buf) s = refl
  secured-Embeds (read_buf_call buf) s = refl
  secured-Embeds shutdown_call s = refl
  secured-Embeds (write_buf_call buf) s = refl

  -- Any script of calls on the stream gives the answers of the stream that it holds, and leaves
  -- that stream in it, plain or over TLS as before.
  run-regular :
      (cs : List Call)
      → ((s : plain.Stream)
          → run (proxy_io plain tls) cs (regular s)
            ≡ ((run plain cs s).0, regular (run plain cs s).1))
        × ((s : tls.Stream)
            → run (proxy_io plain tls) cs (secured s)
              ≡ ((run tls cs s).0, secured (run tls cs s).1))
  run-regular cs = (
    λ s. run-Embeds plain (proxy_io plain tls) (λ x. regular x) regular-Embeds cs s,
    λ s. run-Embeds tls (proxy_io plain tls) (λ x. secured x) secured-Embeds cs s,
  )
