-- ===== src/Body/Steps.antt =====
-- One poll of a body of src/body.rs that is being read.
use simple_http.Base.{
  ℕ, ◌+◌, ◌-◌, ◌≤◌, ◌<◌, false, Option, none, some, [], ◌++◌, ◌≡◌, inr, refl, arith, length,
  length-append, take, drop, append-nil, usize_mod, length-drop, ok, Build, take-append_le,
  take-append_length,
}
use simple_http.Base.Bytes.{Bytes}
use simple_http.Io.{IoResult, Poll, pending, ready, AsyncRead}
use simple_http.Body.{Body, boxed, poll_reader, poll_answer, poll_open, poll_next}

-- A body that is being read from a transport.
abbrev pub reading : {R : Type 0} → R → Bytes → ℕ → Option ℕ → Body R
reading r buf counter length = record {
  drained = false;
  rest = none;
  buf = buf;
  counter = counter;
  content_length = length;
  reader = boxed r;
}

abbrev pub Fits : Option ℕ → ℕ → Type 0
Fits none k = Unit
Fits (some max) k = k ≤ max

module _ (io : AsyncRead) where
  open io use {Reader, poll_read}

  pub poll_next-reading :
      {E : Type 0} (build : Build) (r : Reader) (buf : Bytes) (k : ℕ) (cl : Option ℕ)
      {p : Poll (IoResult Bytes)} {r' : Reader}
      → length buf ≡ 4096
      → poll_read r 4096 ≡ (p, r')
      → poll_next io {E = E} build (reading r buf k cl)
        ≡ poll_answer io build (reading r' buf k cl) p
  unfolding poll_next poll_open poll_reader
  poll_next-reading build r buf k cl h e = rw (h, e)

  pub poll_answer-pending :
      {E : Type 0} (build : Build) (this : Body Reader)
      → poll_answer io {E = E} build this pending ≡ ok (pending, this)
  unfolding poll_answer
  poll_answer-pending build this = refl

  -- A chunk within the announced length, or with no length announced.
  pub poll_answer-Fits :
      {E : Type 0} (build : Build) (r : Reader) (buf : Bytes) (k : ℕ) (cl : Option ℕ) (c : Bytes)
      → 0 < length c
      → k + length c < usize_mod
      → Fits cl (k + length c)
      → poll_answer io {E = E} build (reading r buf k cl) (ready (inr c))
        ≡ ok (ready (some (inr c)), reading r (c ++ drop (length c) buf) (k + length c) cl)
  unfolding poll_answer
  poll_answer-Fits build r buf k none c h1 h2 h3 =
      ground
        (arith, length-append c (drop (length c) buf), take-append_length c (drop (length c) buf))
  poll_answer-Fits build r buf k (some max) c h1 h2 h3 =
      ground
        (arith, length-append c (drop (length c) buf), take-append_length c (drop (length c) buf))

  -- The announced length is reached already.
  pub poll_answer-full :
      {E : Type 0} (build : Build) (r : Reader) (buf : Bytes) (k max : ℕ) (c : Bytes)
      → 0 < length c
      → k + length c < usize_mod
      → max ≡ k
      → poll_answer io {E = E} build (reading r buf k (some max)) (ready (inr c))
        ≡ ok (ready none, reading r (c ++ drop (length c) buf) (k + length c) (some max))
  unfolding poll_answer
  poll_answer-full build r buf k max c h1 h2 h3 = ground arith

  -- The chunk goes across the announced length.
  pub poll_answer-crosses :
      {E : Type 0} (build : Build) (r : Reader) (buf : Bytes) (k max : ℕ) (c : Bytes)
      → k + length c < usize_mod
      → k < max
      → max < k + length c
      → poll_answer io {E = E} build (reading r buf k (some max)) (ready (inr c))
        ≡ ok (
          ready (some (inr (take (max - k) c))),
          reading r (c ++ drop (length c) buf) (k + length c) (some max),
        )
  unfolding poll_answer
  poll_answer-crosses build r buf k max c h1 h2 h3 = ground (
    arith,
    length-append c (drop (length c) buf),
    take-append_le (max - k) c (drop (length c) buf),
  )

  pub length-refill :
      (c buf : Bytes)
      → length buf ≡ 4096
      → length c ≤ 4096
      → length (c ++ drop (length c) buf) ≡ 4096
  length-refill c buf h k =
      omega (arith, length-append c (drop (length c) buf), length-drop (length c) buf)

  pub poll_answer-eof :
      {E : Type 0} (build : Build) (r : Reader) (buf : Bytes) (k : ℕ) (cl : Option ℕ)
      → k < usize_mod
      → Fits cl k
      → poll_answer io {E = E} build (reading r buf k cl) (ready (inr []))
        ≡ ok (ready none, reading r buf k cl)
  unfolding poll_answer
  poll_answer-eof build r buf k none h f = ground (arith, append-nil {A = ℕ} [])
  poll_answer-eof build r buf k (some max) h f = ground arith
