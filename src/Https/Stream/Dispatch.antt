-- ===== src/Https/Stream/Dispatch.antt =====
-- That a stream of src/https/stream.rs is the stream that it holds.
use simple_http.Base.{List, ◌≡◌, refl}
use simple_http.Io.Streams.{
  AsyncIo, Call, run, Embeds, run-Embeds, read_call, write_call, flush_call, prepare_call,
  read_buf_call, shutdown_call, write_buf_call,
}
use simple_http.Https.Stream.{
  http, https, maybe_https_io, read, write, flush, prepare_uninitialized_buffer, read_buf, shutdown,
  write_buf,
}

module _ (plain tls : AsyncIo) where
  http-Embeds : Embeds plain (maybe_https_io plain tls) (λ s. http s)
  unfolding read write flush prepare_uninitialized_buffer read_buf shutdown write_buf
  http-Embeds (read_call n) s = refl
  http-Embeds (write_call buf) s = refl
  http-Embeds flush_call s = refl
  http-Embeds (prepare_call buf) s = refl
  http-Embeds (read_buf_call buf) s = refl
  http-Embeds shutdown_call s = refl
  http-Embeds (write_buf_call buf) s = refl

  https-Embeds : Embeds tls (maybe_https_io plain tls) (λ s. https s)
  unfolding read write flush prepare_uninitialized_buffer read_buf shutdown write_buf
  https-Embeds (read_call n) s = refl
  https-Embeds (write_call buf) s = refl
  https-Embeds flush_call s = refl
  https-Embeds (prepare_call buf) s = refl
  https-Embeds (read_buf_call buf) s = refl
  https-Embeds shutdown_call s = refl
  https-Embeds (write_buf_call buf) s = refl

  -- Any script of calls on the stream gives the answers of the stream that it holds, and leaves
  -- that stream in it, plain or over TLS as before.
  pub run-http :
      (cs : List Call)
      → ((s : plain.Stream)
          → run (maybe_https_io plain tls) cs (http s)
            ≡ ((run plain cs s).0, http (run plain cs s).1))
        × ((s : tls.Stream)
            → run (maybe_https_io plain tls) cs (https s)
              ≡ ((run tls cs s).0, https (run tls cs s).1))
  run-http cs = (
    λ s. run-Embeds plain (maybe_https_io plain tls) (λ x. http x) http-Embeds cs s,
    λ s. run-Embeds tls (maybe_https_io plain tls) (λ x. https x) https-Embeds cs s,
  )
