-- ===== src/Body/Length.antt =====
-- What one poll of a body gives: the announced length, and what happens past it.
use simple_http.Base.{
  ℕ, ◌+◌, ◌-◌, ◌≤◌, ◌<◌, none, some, ◌++◌, ◌≡◌, inr, arith, if◌then◌else◌, leb, length,
  length-append, take, drop, usize_mod, length-drop, take-append_length, take-append_le, ok, panic,
  Build, debug, release,
}
use simple_http.Base.Bytes.{Bytes}
use simple_http.Io.{ready, AsyncRead}
use simple_http.Body.{Body, poll_answer}

module _ (io : AsyncRead) where
  open io use {Reader, poll_read}

  -- Once more bytes than the announced length have been read, the next read that answers panics:
  -- by the subtraction in a debug build, by the slice in a release build.
  pub poll_answer_overrun {ℓ} :
      {E : Type ℓ} (build : Build) (this : Body Reader) (max : ℕ) (bytes : Bytes)
      → this.content_length ≡ some max
      → max < this.counter
      → this.counter + 4096 < usize_mod
      → length bytes ≤ length this.buf
      → length this.buf ≡ 4096
      → poll_answer io {E = E} build this (ready (inr bytes)) ≡ panic
  unfolding poll_answer
  poll_answer_overrun debug this max bytes h1 h2 h3 h4 h5 = ground arith
  poll_answer_overrun release this max bytes h1 h2 h3 h4 h5 = ground (
    arith,
    length-append bytes (drop (length bytes) this.buf),
    length-drop (length bytes) this.buf,
  )

  -- A read of `n` bytes that stays within the announced length is passed on as it is; where it
  -- goes past the length, what is passed on is cut at the length; a read of nothing ends.
  pub poll_answer_within :
      {E : Type 0} (build : Build) (this : Body Reader) (max : ℕ) (bytes : Bytes)
      → this.content_length ≡ some max
      → this.counter ≤ max
      → 0 < length bytes
      → this.counter + length bytes < usize_mod
      → poll_answer io {E = E} build this (ready (inr bytes)) ≡ (
          if leb (this.counter + length bytes) max
          then ok (
            ready (some (inr bytes)),
            record this {
              buf = bytes ++ drop (length bytes) this.buf;
              counter = this.counter + length bytes;
            },
          )
          else if leb max this.counter
          then ok (
            ready none,
            record this {
              buf = bytes ++ drop (length bytes) this.buf;
              counter = this.counter + length bytes;
            },
          )
          else ok (
            ready (some (inr (take (max - this.counter) bytes))),
            record this {
              buf = bytes ++ drop (length bytes) this.buf;
              counter = this.counter + length bytes;
            },
          ))
  unfolding poll_answer
  poll_answer_within build this max bytes h1 h2 h3 h4 = ground (
    arith,
    length-append bytes (drop (length bytes) this.buf),
    take-append_length bytes (drop (length bytes) this.buf),
    take-append_le (max - this.counter) bytes (drop (length bytes) this.buf),
  )
