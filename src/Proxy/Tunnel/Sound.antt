-- ===== src/Proxy/Tunnel/Sound.antt =====
-- What the tunnel of src/proxy/tunnel.rs has exchanged, after each step of a poll.
use simple_http.Base.{
  ℕ, zero, suc, ◌+◌, true, ◌||◌, none, some, [], ◌++◌, inl, ◌≡◌, inr, ltb, length, take, drop,
  take-add, take-length_le, ◌==◌, ok, err, out_of_fuel, arith, refl, Bool-cases, ap, sym, ◌∙◌,
}
use simple_http.Base.Bytes.{Bytes, codes, crlf}
use simple_http.Base.Search.{starts_with, ends_with}
use simple_http.Io.{IoError, IoResult, Poll, pending, ready}
use simple_http.Io.Streams.{Cursor}
use simple_http.Proxy.Tunnel.{
  TunnelIo, Tunnel, writing, reading, Polled, poll, poll_loop, round, after_read, after_write,
  judge, finish,
}

-- What is documented of the stream and of the cursor. `sent` and `received` are what the stream
-- has carried.
pub record TunnelLaw (t : TunnelIo) : Type 0 where
  pub sent : t.Stream → Bytes
  pub received : t.Stream → Bytes
  pub remaining : (c : Cursor) → t.has_remaining_mut c ≡ ltb c.position (length c.bytes)
  -- Bytes are written from the cursor on, which moves behind them.
  pub write_sent :
      (s : t.Stream) (c : Cursor) (n : ℕ) (s' : t.Stream) (c' : Cursor)
      → t.write_buf s c ≡ (ready (inr n), s', c')
      → sent s' ≡ sent s ++ take n (drop c.position c.bytes)
  pub write_cursor :
      (s : t.Stream) (c : Cursor) (n : ℕ) (s' : t.Stream) (c' : Cursor)
      → t.write_buf s c ≡ (ready (inr n), s', c')
      → (c'.bytes ≡ c.bytes) × (c'.position ≡ c.position + n)
  pub write_pending :
      (s : t.Stream) (c : Cursor) (s' : t.Stream) (c' : Cursor)
      → t.write_buf s c ≡ (pending, s', c')
      → (c'.bytes ≡ c.bytes) × (c'.position ≡ c.position) × (sent s' ≡ sent s)
  pub write_received :
      (s : t.Stream) (c : Cursor) (p : Poll (IoResult ℕ)) (s' : t.Stream) (c' : Cursor)
      → t.write_buf s c ≡ (p, s', c')
      → received s' ≡ received s
  -- Bytes received are put behind the buffer.
  pub read_received :
      (s : t.Stream) (vec : Bytes) (n : ℕ) (s' : t.Stream) (vec' : Bytes)
      → t.read_buf s vec ≡ (ready (inr n), s', vec')
      → (got : Bytes) × (length got ≡ n) × (vec' ≡ vec ++ got) × (received s' ≡ received s ++ got)
  pub read_pending :
      (s : t.Stream) (vec : Bytes) (s' : t.Stream) (vec' : Bytes)
      → t.read_buf s vec ≡ (pending, s', vec')
      → (vec' ≡ vec) × (received s' ≡ received s)
  pub read_sent :
      (s : t.Stream) (vec : Bytes) (p : Poll (IoResult ℕ)) (s' : t.Stream) (vec' : Bytes)
      → t.read_buf s vec ≡ (p, s', vec')
      → sent s' ≡ sent s

module _ (t : TunnelIo) (law : TunnelLaw t) (req : Bytes) where
  -- The state of a tunnel that is not complete, by what its stream has carried.
  pub data Sound (this : Tunnel t) : Type 0 where
    sending :
        (s : t.Stream) (c : t.Connected)
        → this.state ≡ writing
        → this.stream ≡ some s
        → this.connected ≡ some c
        → this.buf.bytes ≡ req
        → law.sent s ≡ take this.buf.position req
        → law.received s ≡ []
        → Sound this
    receiving :
        (s : t.Stream) (c : t.Connected)
        → this.state ≡ reading
        → this.stream ≡ some s
        → this.connected ≡ some c
        → law.sent s ≡ req
        → law.received s ≡ this.buf.bytes
        → Sound this

  -- The stream has carried the whole request, and an answer that begins with status 200 and ends
  -- in a blank line.
  pub record Opened (s : t.Stream) : Type 0 where
    pub asked : law.sent s ≡ req
    pub granted :
        starts_with (codes "HTTP/1.1 200") (law.received s)
          || starts_with (codes "HTTP/1.0 200") (law.received s)
        ≡ true
    pub ended : ends_with (crlf ++ crlf) (law.received s) ≡ true

  -- What a poll of a sound tunnel can give; it does not panic.
  pub data SoundResult (m : Polled t) : Type 0 where
    waits : (next : Tunnel t) → m ≡ ok (pending, next) → Sound next → SoundResult m
    opens :
        (s : t.Stream) (c : t.Connected) (next : Tunnel t)
        → m ≡ ok (ready (s, t.proxy true c), next)
        → next.stream ≡ none
        → Opened s
        → SoundResult m
    fails : (e : IoError) → m ≡ err e → SoundResult m
    spent : m ≡ out_of_fuel → SoundResult m

  module _ (go : Tunnel t → Polled t)
      (ih : (next : Tunnel t) → Sound next → SoundResult (go next)) where
    judge-Sound :
        (this : Tunnel t) (s : t.Stream) (c : t.Connected)
        → this.state ≡ reading
        → this.stream ≡ some s
        → this.connected ≡ some c
        → law.sent s ≡ req
        → law.received s ≡ this.buf.bytes
        → SoundResult (judge t go this this.buf.bytes)
    unfolding judge finish
    judge-Sound this s c e₁ e₂ e₃ e₄ e₅ =
        let more = ih this (receiving s c e₁ e₂ e₃ e₄ e₅) in
        elim (Bool-cases (ltb 12 (length this.buf.bytes))) [
          | inl long ↦
              rw long
                (elim (Bool-cases (
                  starts_with (codes "HTTP/1.1 200") this.buf.bytes
                  || starts_with (codes "HTTP/1.0 200") this.buf.bytes)) [
                    | inl granted ↦
                        rw granted (elim (Bool-cases (ends_with (crlf ++ crlf) this.buf.bytes)) [
                          | inl ended ↦ rw ended (
                              rw e₂ (
                                rw e₃ (
                                  opens s c _ refl refl (record {
                                    asked = e₄;
                                    granted = rw e₅ granted;
                                    ended = rw e₅ ended;
                                  }))))
                          | inr open_end ↦ rw open_end more
                        ])
                    | inr refused ↦ rw refused (fails _ refl)
                  ])
          | inr short ↦ rw short more
        ]

    after_read-Sound :
        (this : Tunnel t) (s : t.Stream) (c : t.Connected) (p : Poll (IoResult ℕ)) (s' : t.Stream)
        (vec : Bytes)
        → t.read_buf s this.buf.bytes ≡ (p, s', vec)
        → this.state ≡ reading
        → this.connected ≡ some c
        → law.sent s ≡ req
        → law.received s ≡ this.buf.bytes
        → SoundResult (after_read t go this (p, s', vec))
    unfolding after_read
    after_read-Sound this s c pending s' vec h e₁ e₂ e₃ e₄ =
        let (v, r) = law.read_pending s this.buf.bytes s' vec h in
        waits _ refl (
          receiving s' c e₁ refl e₂ (law.read_sent s this.buf.bytes pending s' vec h ∙ e₃)
            (r ∙ (e₄ ∙ sym v)))
    after_read-Sound this s c (ready (inl e)) s' vec h e₁ e₂ e₃ e₄ = fails e refl
    after_read-Sound this s c (ready (inr n)) s' vec h e₁ e₂ e₃ e₄ =
        let (got, l, v, r) = law.read_received s this.buf.bytes n s' vec h in
        elim (Bool-cases (n == 0)) [
          | inl closed ↦ rw closed (fails _ refl)
          | inr answered ↦ rw answered (
              judge-Sound _ s' c e₁ refl e₂
                (law.read_sent s this.buf.bytes (ready (inr n)) s' vec h ∙ e₃)
                (r ∙ (ap (λ x. x ++ got) e₄ ∙ sym v)))
        ]

    after_write-Sound :
        (this : Tunnel t) (s : t.Stream) (c : t.Connected) (p : Poll (IoResult ℕ)) (s' : t.Stream)
        (buf : Cursor)
        → t.write_buf s this.buf ≡ (p, s', buf)
        → this.state ≡ writing
        → this.connected ≡ some c
        → this.buf.bytes ≡ req
        → law.sent s ≡ take this.buf.position req
        → law.received s ≡ []
        → SoundResult (after_write t go this (p, s', buf))
    unfolding after_write
    after_write-Sound this s c pending s' buf h e₁ e₂ e₃ e₄ e₅ =
        let (b, q, w) = law.write_pending s this.buf s' buf h in
        waits _ refl (
          sending s' c e₁ refl e₂ (b ∙ e₃) (w ∙ (e₄ ∙ ap (λ i. take i req) (sym q)))
            (law.write_received s this.buf pending s' buf h ∙ e₅))
    after_write-Sound this s c (ready (inl e)) s' buf h e₁ e₂ e₃ e₄ e₅ = fails e refl
    after_write-Sound this s c (ready (inr n)) s' buf h e₁ e₂ e₃ e₄ e₅ =
        let (b, q) = law.write_cursor s this.buf n s' buf h in
        let same = b ∙ e₃ in
        let silent = law.write_received s this.buf (ready (inr n)) s' buf h ∙ e₅ in
        let w : law.sent s' ≡ take buf.position req = rw q (
          rw (sym (take-add this.buf.position n req))
            (rw (sym e₄) (rw (sym e₃) (law.write_sent s this.buf n s' buf h)))) in
        elim (Bool-cases (t.has_remaining_mut buf)) [
          | inl rest ↦ rw rest (elim (Bool-cases (n == 0)) [
            | inl closed ↦ rw closed (fails _ refl)
            | inr wrote ↦ rw wrote (ih _ (sending s' c e₁ refl e₂ same w silent))
          ])
          | inr all ↦ rw all (
              ih _ (
                receiving s' c refl refl e₂
                  (w
                    ∙ take-length_le buf.position req
                        (ground (arith, law.remaining buf, ap length same)))
                  silent))
        ]

  round-Sound :
      (go : Tunnel t → Polled t)
      → ((next : Tunnel t) → Sound next → SoundResult (go next))
      → (this : Tunnel t) → Sound this
      → SoundResult (round t go this this.state)
  unfolding round
  round-Sound go ih this (sending s c e₁ e₂ e₃ e₄ e₅ e₆) =
      simp (e₁, e₂) (after_write-Sound go ih this s c _ _ _ refl e₁ e₃ e₄ e₅ e₆)
  round-Sound go ih this (receiving s c e₁ e₂ e₃ e₄ e₅) =
      simp (e₁, e₂) (after_read-Sound go ih this s c _ _ _ refl e₁ e₃ e₄ e₅)

  poll_loop-Sound : (fuel : ℕ) (this : Tunnel t) → Sound this → SoundResult (poll_loop t fuel this)
  unfolding poll_loop
  poll_loop-Sound zero this h = spent refl
  poll_loop-Sound (suc fuel) this h = round-Sound (poll_loop t fuel) (poll_loop-Sound fuel) this h

  pub poll-Sound : (fuel : ℕ) (this : Tunnel t) → Sound this → SoundResult (poll t fuel this)
  unfolding poll
  poll-Sound fuel this (sending s c e₁ e₂ e₃ e₄ e₅ e₆) =
      simp (e₂, e₃) (poll_loop-Sound fuel this (sending s c e₁ e₂ e₃ e₄ e₅ e₆))
  poll-Sound fuel this (receiving s c e₁ e₂ e₃ e₄ e₅) =
      simp (e₂, e₃) (poll_loop-Sound fuel this (receiving s c e₁ e₂ e₃ e₄ e₅))
