-- ===== src/Body/Bounds.antt =====
-- How many bytes a body of src/body.rs gives, whatever its reader does.
use simple_http.Base.{
  ℕ, ◌+◌, ◌≤◌, ◌<◌, Option, none, some, ◌≡◌, ◌∙◌, inl, inr, refl, sym, subst, arith, Bool-cases,
  length, usize_mod, ok, Build,
}
use simple_http.Base.Bytes.{Bytes}
use simple_http.Io.{IoError, IoResult, Poll, ready, AsyncRead}
use simple_http.Body.{Body, BodyReader, empty_slice, boxed, new, poll_reader, poll_open, poll_next}
use simple_http.Body.Within.{
  given, Within, poll_next-drained, poll_next-open, Gives-ok, Within-none, answer-Within,
}

-- A read answers with at most as many bytes as the buffer holds.
pub record ReadLaw (io : AsyncRead) : Type 0 where
  pub bounded :
      (r : io.Reader) (n : ℕ) {bytes : Bytes} {r' : io.Reader}
      → io.poll_read r n ≡ (ready (inr bytes), r')
      → length bytes ≤ n

module _ (io : AsyncRead) (build : Build) where
  open io use {Reader, poll_read}

  -- What any number of polls have made of a body, with the bytes that they gave.
  pub data Polled (body : Body Reader) : ℕ → Body Reader → Type 0 where
    unpolled : {body' : Body Reader} → body' ≡ body → Polled body 0 body'
    polled :
        {total total' : ℕ} {body' body'' : Body Reader} (p : Poll (Option (IoResult Bytes)))
        → Polled body total body'
        → poll_next io {E = IoError} build body' ≡ ok (p, body'')
        → total' ≡ total + given p
        → Polled body total' body''

  module _ (max start : ℕ) (small : max + 8192 < usize_mod) where
    module _ (law : ReadLaw io) where
      reader-bounded :
          (reader : BodyReader Reader) (n : ℕ) (bytes : Bytes)
          → (poll_reader io reader n).0 ≡ ready (inr bytes)
          → length bytes ≤ n
      unfolding poll_reader
      reader-bounded empty_slice n bytes e = ground (arith, e)
      reader-bounded (boxed r) n bytes e =
          law.bounded r n {r' = (poll_read r n).1} (rw (sym e) refl)

      poll-Within :
          (body : Body Reader) (total : ℕ) (rest : Option Bytes)
          {p : Poll (Option (IoResult Bytes))} {body' : Body Reader}
          → Within io build max start body total
          → body.rest ≡ rest
          → poll_open io {E = IoError} build body rest ≡ ok (p, body')
          → Within io build max start body' (total + given p)
      unfolding poll_open
      poll-Within body total (some vec) w r e =
          Gives-ok io build max start small total
            (
              ready (some (inr vec)),
              record body { rest = none },
              refl,
              record {
                announced = w.announced;
                buffer = w.buffer;
                room = w.room;
                counted = omega (arith, rw r at w.counted);
                capped = omega (arith, rw r at w.capped);
              },
            )
            e
      poll-Within body total none w r e =
          let body₁ = record body { reader = (poll_reader io body.reader (length body.buf)).1 } in
          answer-Within io build max start small body₁ total
            (poll_reader io body.reader (length body.buf)).0
            (record {
              announced = w.announced;
              buffer = w.buffer;
              room = w.room;
              counted = w.counted;
              capped = w.capped;
            })
            (λ bytes h.
              subst (λ n. length bytes ≤ n) w.buffer
                (reader-bounded body.reader (length body.buf) bytes h))
            e

      Polled-Within :
          (uninit rest : Bytes) (r : Reader) {total : ℕ} {body : Body Reader}
          → length uninit ≡ 4096
          → start ≡ length rest
          → Polled (new uninit r (some rest) (some max)) total body
          → Within io build max start body total
      unfolding new
      Polled-Within uninit rest r full s (unpolled e) =
          subst (λ b. Within io build max start b 0) (sym e)
            (record {
              announced = refl;
              buffer = full;
              room = omega arith;
              counted = omega (arith, s);
              capped = omega (arith, s);
            })
      Polled-Within uninit rest r full s (polled {total = t} {body' = b} p before e q) =
          let w = Polled-Within uninit rest r full s before in
          rw q (elim (Bool-cases b.drained) [
            | inl drained ↦
                Gives-ok io build max start small t
                  (
                    ready none,
                    b,
                    refl,
                    Within-none io build max start small b b t refl refl refl refl w,
                  )
                  (sym (poll_next-drained io build b drained) ∙ e)
            | inr undrained ↦
                poll-Within b t b.rest w refl (sym (poll_next-open io build b undrained) ∙ e)
          ])

  -- Of a body of an announced length, two buffers below 2 ^ 64, over a reader that answers with at
  -- most as many bytes as it was asked for, any polls, whatever they give, errors included, give at most the bytes that came
  -- with the head and the announced length together, and at most as many as came with the head and
  -- were counted; the buffer keeps its 4096 bytes.
  pub Polled-bounds :
      ReadLaw io
      → (uninit rest : Bytes) (r : Reader) (max : ℕ) {total : ℕ} {body : Body Reader}
      → length uninit ≡ 4096
      → max + 8192 < usize_mod
      → Polled (new uninit r (some rest) (some max)) total body
      → (total ≤ length rest + max)
        × (total ≤ length rest + body.counter)
        × (length body.buf ≡ 4096)
  Polled-bounds law uninit rest r max full small polls =
      let w = Polled-Within max (length rest) small law uninit rest r full refl polls in
      (omega (arith, w.capped), omega (arith, w.counted), w.buffer)
