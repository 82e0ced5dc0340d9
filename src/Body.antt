-- ===== src/Body.antt =====
-- src/body.rs: the response body as a stream of chunks.
pub mod Length
pub mod Steps
pub mod Collect
pub mod Within
pub mod Bounds
use simple_http.Base.{
  ℕ, ◌+◌, ◌-◌, Bool, true, false, Option, none, some, List, [], ◌∷◌, ◌++◌, inl, inr, ltb,
  if◌then◌else◌, length, drop, slice_to, Outcome, ok, ◌>>=◌, Build, usize_sub, usize_add,
}
use simple_http.Base.Bytes.{Bytes}
use simple_http.Io.{IoError, IoResult, Poll, pending, ready, AsyncRead}

-- The boxed reader: the static empty slice, or the transport behind `compat()`.
pub data BodyReader (R : Type 0) : Type 0 where
  empty_slice : BodyReader R
  boxed : R → BodyReader R

pub record Body (R : Type 0) : Type 0 where
  pub drained : Bool
  pub rest : Option Bytes
  pub buf : Bytes
  pub counter : ℕ
  pub content_length : Option ℕ
  pub reader : BodyReader R

-- `Body::empty`
unfoldable pub empty : {R : Type 0} → Body R
empty = record {
  drained = true;
  rest = none;
  buf = [];
  counter = 0;
  content_length = none;
  reader = empty_slice;
}

-- `Body::new`. The 4096 bytes of the buffer are not initialised: they are a parameter.
unfoldable pub new : {R : Type 0} → Bytes → R → Option Bytes → Option ℕ → Body R
new uninit reader rest content_length = record {
  drained = false;
  rest = rest;
  buf = uninit;
  counter = 0;
  content_length = content_length;
  reader = boxed reader;
}

-- The excess over the announced length is taken off the count of bytes read.
abbrev pub clip {ℓ} : {E : Type ℓ} → Build → Option ℕ → ℕ → ℕ → Outcome E ℕ
clip build none counter n = ok n
clip build (some max) counter n =
    if ltb max counter
    then (do over ← usize_sub build counter max; usize_sub build n over)
    else ok n

module _ (io : AsyncRead) where
  open io use {Reader, poll_read}

  unfoldable pub poll_reader : BodyReader Reader → ℕ → Poll (IoResult Bytes) × BodyReader Reader
  poll_reader empty_slice len = (ready (inr []), empty_slice)
  poll_reader (boxed r) len = let (p, r') = poll_read r len in (p, boxed r')

  -- The branch on what the reader has answered. The read has put `bytes` at the front of `buf`.
  unfoldable pub poll_answer {ℓ} :
      {E : Type ℓ}
      → Build
      → Body Reader
      → Poll (IoResult Bytes)
      → Outcome E (Poll (Option (IoResult Bytes)) × Body Reader)
  poll_answer build this pending = ok (pending, this)
  poll_answer build this (ready (inl e)) = ok (ready (some (inl e)), record this { drained = true })
  poll_answer build this (ready (inr bytes)) = do
    let buf = bytes ++ drop (length bytes) this.buf
    counter ← usize_add build this.counter (length bytes)
    n ← clip build this.content_length counter (length bytes)
    let this' = record this { buf = buf; counter = counter }
    if ltb 0 n
        then (do chunk ← slice_to buf n; ok (ready (some (inr chunk)), this'))
        else ok (ready none, this')

  -- `poll_next` past the test of `drained`, by what `rest.take()` gives
  unfoldable pub poll_open {ℓ} :
      {E : Type ℓ}
      → Build
      → Body Reader
      → Option Bytes
      → Outcome E (Poll (Option (IoResult Bytes)) × Body Reader)
  poll_open build this (some vec) = ok (ready (some (inr vec)), record this { rest = none })
  poll_open build this none =
      let (p, reader) = poll_reader this.reader (length this.buf) in
      poll_answer build (record this { reader = reader }) p

  unfoldable pub poll_next {ℓ} :
      {E : Type ℓ} → Build → Body Reader → Outcome E (Poll (Option (IoResult Bytes)) × Body Reader)
  unfolding poll_open
  poll_next build this =
      if this.drained then ok (ready none, this) else poll_open build this this.rest
