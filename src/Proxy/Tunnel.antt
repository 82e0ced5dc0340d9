-- ===== src/Proxy/Tunnel.antt =====
-- src/proxy/tunnel.rs: the CONNECT request that opens a tunnel, and the future that sends it and
-- reads the answer. The stream, and the cursor's traits of the crate `bytes`, are parameters.
use simple_http.Base.{
  ℕ, zero, suc, Bool, true, false, not, ◌||◌, Option, none, some, List, [], ◌∷◌, ◌++◌, ◌⊎◌, inl,
  inr, ltb, if◌then◌else◌, length, ◌==◌, Outcome, ok, err, panic, out_of_fuel, ◌>>=◌, unwrap,
}
use mathlib.Core.Option
pub mod Sound
pub mod Establish
pub mod Granting
pub mod Granted
pub mod Progress
use simple_http.Base.Bytes.{Bytes, codes, crlf}
use simple_http.Base.Search.{starts_with, ends_with}
use simple_http.Base.Text.{show_nat}
use simple_http.Io.Streams.{Cursor}
use simple_http.Io.{IoError, IoResult, other, Poll, pending, ready}

pub data TunnelState : Type 0 where
  writing reading : TunnelState

-- What the tunnel uses of other crates: `tokio_io` and `bytes`, `Connected` of hyper, and
-- `HeaderValue::to_str`. A poll gives the new stream and the new buffer too.
pub record TunnelIo : Type 1 where
  pub Stream : Type 0
  pub write_buf : Stream → Cursor → Poll (IoResult ℕ) × Stream × Cursor
  pub read_buf : Stream → Bytes → Poll (IoResult ℕ) × Stream × Bytes
  pub has_remaining_mut : Cursor → Bool
  pub Connected : Type 0
  pub proxy : Bool → Connected → Connected
  pub to_str : Bytes → Option Bytes

abbrev pub io_err : Bytes → IoError
io_err message = record { kind = other; message = message }

abbrev pub is_none {ℓ} : {A : Type ℓ} → Option A → Bool
is_none none = true
is_none (some a) = false

module _ (t : TunnelIo) where
  open t use {Stream, write_buf, read_buf, has_remaining_mut, Connected, proxy, to_str}

  -- `HeadersDisplay::fmt`: a value that is not text is an error.
  unfoldable pub headers_display : List (Bytes × Bytes) → Option Bytes
  headers_display [] = some []
  headers_display ((key, value) ∷ headers) =
      let rest = headers_display headers in
      elim (to_str value) [
        | none ↦ none
        | some value_str ↦ Option.map (◌++◌ (key ++ (codes ": " ++ (value_str ++ crlf)))) rest
      ]

  -- `new`: `format!` panics when a `Display` fails. The buffer is all that `TunnelConnect` holds.
  unfoldable pub new {ℓ} : {E : Type ℓ} → Bytes → ℕ → List (Bytes × Bytes) → Outcome E Bytes
  new host port headers = do
    shown ← unwrap (headers_display headers)
    let target = host ++ (codes ":" ++ show_nat port)
    ok (
        codes "CONNECT "
        ++ (target ++ (codes " HTTP/1.1\r\nHost: " ++ (target ++ (crlf ++ (shown ++ crlf))))))

  pub record Tunnel : Type 0 where
    pub buf : Cursor
    pub stream : Option Stream
    pub connected : Option Connected
    pub state : TunnelState

  unfoldable pub with_stream : Bytes → Stream → Connected → Tunnel
  with_stream buf stream connected = record {
    buf = record { bytes = buf; position = 0 };
    stream = some stream;
    connected = some connected;
    state = writing;
  }

  -- What a call of `poll` gives. After an error the future is not used again.
  abbrev pub Polled : Type 0
  Polled = Outcome IoError (Poll (Stream × Connected) × Tunnel)

  -- The branch of `poll` that has written; `go` is the next round of the loop.
  unfoldable pub after_write :
      (Tunnel → Polled) → Tunnel → Poll (IoResult ℕ) × Stream × Cursor → Polled
  after_write go this (pending, stream, buf) =
      ok (pending, record this { stream = some stream; buf = buf })
  after_write go this (ready (inl e), stream, buf) = err e
  after_write go this (ready (inr n), stream, buf) =
      let this' = record this { stream = some stream; buf = buf } in
      if not (has_remaining_mut buf)
      then go (record this' { state = reading; buf = record buf { bytes = [] } })
      else if n == 0
      then err (io_err (codes "unexpected EOF while tunnel writing"))
      else go this'

  unfoldable pub finish : Tunnel → Polled
  finish this = do
    stream ← unwrap this.stream
    connected ← unwrap this.connected
    ok (ready (stream, proxy true connected), record this { stream = none; connected = none })

  -- What is done with the bytes received so far.
  unfoldable pub judge : (Tunnel → Polled) → Tunnel → Bytes → Polled
  judge go this read =
      if ltb 12 (length read)
      then if starts_with (codes "HTTP/1.1 200") read || starts_with (codes "HTTP/1.0 200") read
        then if ends_with (crlf ++ crlf) read then finish this else go this
        else err (io_err (codes "unsuccessful tunnel"))
      else go this

  -- The branch of `poll` that has read.
  unfoldable pub after_read :
      (Tunnel → Polled) → Tunnel → Poll (IoResult ℕ) × Stream × Bytes → Polled
  unfolding judge
  after_read go this (pending, stream, vec) =
      ok (pending, record this { stream = some stream; buf = record this.buf { bytes = vec } })
  after_read go this (ready (inl e), stream, vec) = err e
  after_read go this (ready (inr n), stream, vec) =
      let this' = record this { stream = some stream; buf = record this.buf { bytes = vec } } in
      if n == 0
      then err (io_err (codes "unexpected EOF while tunnel reading"))
      else judge go this' vec

  -- one round of the loop
  unfoldable pub round : (Tunnel → Polled) → Tunnel → TunnelState → Polled
  unfolding after_write after_read
  round go this writing = do
    stream ← unwrap this.stream
    after_write go this (write_buf stream this.buf)
  round go this reading = do
    stream ← unwrap this.stream
    after_read go this (read_buf stream this.buf.bytes)

  pub poll_loop : ℕ → Tunnel → Polled
  poll_loop zero this = out_of_fuel
  poll_loop (suc fuel) this = round (poll_loop fuel) this this.state

  unfoldable pub poll : ℕ → Tunnel → Polled
  unfolding poll_loop
  poll fuel this =
      if is_none this.stream || is_none this.connected then panic else poll_loop fuel this
