-- ===== src/Io/Streams.antt =====
-- The traits `Read`, `Write`, `AsyncRead` and `AsyncWrite` of streams as one interface, and scripts
-- of their calls.
use simple_http.Base.{ℕ, Bool, List, [], ◌∷◌, ◌≡◌, refl}
use simple_http.Base.Bytes.{Bytes}
use simple_http.Io.{IoResult, Poll}

-- `Cursor<Vec<u8>>`
pub record Cursor : Type 0 where
  pub bytes : Bytes
  pub position : ℕ

-- A call gives its answer and the stream after it; a buffer that it fills is part of the answer.
pub record AsyncIo : Type 1 where
  pub Stream : Type 0
  -- the bytes put at the front of a buffer of the given length
  pub read : Stream → ℕ → IoResult Bytes × Stream
  pub write : Stream → Bytes → IoResult ℕ × Stream
  pub flush : Stream → IoResult (Unit {0}) × Stream
  pub prepare_uninitialized_buffer : Stream → Bytes → Bool × Bytes
  pub read_buf : Stream → Bytes → Poll (IoResult ℕ) × Stream × Bytes
  pub shutdown : Stream → Poll (IoResult (Unit {0})) × Stream
  pub write_buf : Stream → Cursor → Poll (IoResult ℕ) × Stream × Cursor

-- The same calls, of a given type of streams.
pub record StreamCalls (S : Type 0) : Type 0 where
  pub read : S → ℕ → IoResult Bytes × S
  pub write : S → Bytes → IoResult ℕ × S
  pub flush : S → IoResult (Unit {0}) × S
  pub prepare_uninitialized_buffer : S → Bytes → Bool × Bytes
  pub read_buf : S → Bytes → Poll (IoResult ℕ) × S × Bytes
  pub shutdown : S → Poll (IoResult (Unit {0})) × S
  pub write_buf : S → Cursor → Poll (IoResult ℕ) × S × Cursor

abbrev pub with_calls : (S : Type 0) → StreamCalls S → AsyncIo
with_calls S calls = record {
  Stream = S;
  read = calls.read;
  write = calls.write;
  flush = calls.flush;
  prepare_uninitialized_buffer = calls.prepare_uninitialized_buffer;
  read_buf = calls.read_buf;
  shutdown = calls.shutdown;
  write_buf = calls.write_buf;
}

pub data Call : Type 0 where
  read_call : ℕ → Call
  write_call : Bytes → Call
  flush_call : Call
  prepare_call : Bytes → Call
  read_buf_call : Bytes → Call
  shutdown_call : Call
  write_buf_call : Cursor → Call

pub data Answer : Type 0 where
  bytes_read : IoResult Bytes → Answer
  written : IoResult ℕ → Answer
  flushed : IoResult (Unit {0}) → Answer
  prepared : Bool → Bytes → Answer
  buf_read : Poll (IoResult ℕ) → Bytes → Answer
  shut : Poll (IoResult (Unit {0})) → Answer
  buf_written : Poll (IoResult ℕ) → Cursor → Answer

module _ (io : AsyncIo) where
  abbrev pub call : Call → io.Stream → Answer × io.Stream
  call (read_call n) s = let (r, s') = io.read s n in (bytes_read r, s')
  call (write_call buf) s = let (r, s') = io.write s buf in (written r, s')
  call flush_call s = let (r, s') = io.flush s in (flushed r, s')
  call (prepare_call buf) s =
      let (r, buf') = io.prepare_uninitialized_buffer s buf in (prepared r buf', s)
  call (read_buf_call buf) s = let (r, s', buf') = io.read_buf s buf in (buf_read r buf', s')
  call shutdown_call s = let (r, s') = io.shutdown s in (shut r, s')
  call (write_buf_call buf) s = let (r, s', buf') = io.write_buf s buf in (buf_written r buf', s')

  -- the answers of a script of calls, and the stream after it
  abbrev pub run : List Call → io.Stream → List Answer × io.Stream
  run [] s = ([], s)
  run (c ∷ cs) s = let (a, s₁) = call c s in let (answers, s₂) = run cs s₁ in (a ∷ answers, s₂)

-- Each call through `f` gives what it gives inside, and stays within `f`.
abbrev pub Embeds : (io outer : AsyncIo) → (io.Stream → outer.Stream) → Type 0
Embeds io outer f =
    (c : Call) (s : io.Stream) → call outer c (f s) ≡ ((call io c s).0, f (call io c s).1)

pub run-Embeds :
    (io outer : AsyncIo) (f : io.Stream → outer.Stream)
    → Embeds io outer f
    → (cs : List Call) (s : io.Stream) → run outer cs (f s) ≡ ((run io cs s).0, f (run io cs s).1)
run-Embeds io outer f h [] s = refl
run-Embeds io outer f h (c ∷ cs) s =
    rw (h c s) (rw (run-Embeds io outer f h cs (call io c s).1) refl)
