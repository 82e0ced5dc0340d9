-- ===== src/Proxy/Tunnel/Granting.antt =====
-- That src/proxy/tunnel.rs opens a tunnel to a proxy that grants it.
use simple_http.Base.{
  ℕ, ◌+◌, ◌-◌, ◌≤◌, ◌<◌, true, false, ◌||◌, some, [], ◌++◌, inl, inr, ◌≡◌, ◌≢◌, ltb, length,
  length-append, ◌==◌, ok, arith, refl, Bool-cases, ap, sym, ◌∙◌, append-nil, append_assoc,
}
use simple_http.Base.Bytes.{Bytes, codes, crlf}
use simple_http.Base.Search.{starts_with, ends_with}
use simple_http.Base.Search.Prefixes.{starts_with-append}
use simple_http.Io.{IoResult, Poll, pending, ready}
use simple_http.Io.Streams.{Cursor}
use simple_http.Proxy.Tunnel.{
  TunnelIo, Tunnel, writing, reading, Polled, round, after_read, after_write, judge, finish,
}
use simple_http.Proxy.Tunnel.Sound.{TunnelLaw}

-- What is documented of a stream to a peer that listens and answers: a call is not ready only so
-- many times; otherwise it writes one byte at least, or reads a part of what the peer still sends.
pub record PeerAnswers (t : TunnelIo) (law : TunnelLaw t) : Type 0 where
  pub incoming : t.Stream → Bytes
  pub stalls : t.Stream → ℕ
  pub write_stalls :
      (s : t.Stream) (c : Cursor) (s' : t.Stream) (c' : Cursor)
      → t.write_buf s c ≡ (pending, s', c')
      → (stalls s' < stalls s) × (incoming s' ≡ incoming s)
  pub write_works :
      (s : t.Stream) (c : Cursor) (r : IoResult ℕ) (s' : t.Stream) (c' : Cursor)
      → c.position < length c.bytes
      → t.write_buf s c ≡ (ready r, s', c')
      → (n : ℕ) × (r ≡ inr n) × (0 < n) × (stalls s' ≤ stalls s) × (incoming s' ≡ incoming s)
  pub read_stalls :
      (s : t.Stream) (vec : Bytes) (s' : t.Stream) (vec' : Bytes)
      → t.read_buf s vec ≡ (pending, s', vec')
      → (stalls s' < stalls s) × (incoming s' ≡ incoming s)
  pub read_works :
      (s : t.Stream) (vec : Bytes) (r : IoResult ℕ) (s' : t.Stream) (vec' : Bytes)
      → incoming s ≢ []
      → t.read_buf s vec ≡ (ready r, s', vec')
      → (got : Bytes) × (r ≡ inr (length got))
        × (0 < length got)
        × (vec' ≡ vec ++ got)
        × (stalls s' ≤ stalls s)
        × (incoming s ≡ got ++ incoming s')

-- An answer that grants the tunnel: status 200 of HTTP/1.0 or 1.1, and a blank line at the end.
pub record IsGrant (answer : Bytes) : Type 0 where
  pub longer : 12 < length answer
  pub granted :
      starts_with (codes "HTTP/1.1 200") answer || starts_with (codes "HTTP/1.0 200") answer ≡ true
  pub ended : ends_with (crlf ++ crlf) answer ≡ true

module _ (t : TunnelIo) (law : TunnelLaw t) (peer : PeerAnswers t law) {answer : Bytes}
    (grant : IsGrant answer) (c : t.Connected) where
  -- A tunnel on its way: what is to be written, and what is to come.
  pub data Going (this : Tunnel t) : ℕ → ℕ → Type 0 where
    asking :
        (s : t.Stream) {stalls work : ℕ}
        → this.state ≡ writing
        → this.stream ≡ some s
        → this.connected ≡ some c
        → this.buf.position < length this.buf.bytes
        → peer.incoming s ≡ answer
        → peer.stalls s ≤ stalls
        → length this.buf.bytes - this.buf.position + length answer ≤ work
        → Going this stalls work
    hearing :
        (s : t.Stream) {stalls work : ℕ}
        → this.state ≡ reading
        → this.stream ≡ some s
        → this.connected ≡ some c
        → this.buf.bytes ++ peer.incoming s ≡ answer
        → peer.incoming s ≢ []
        → peer.stalls s ≤ stalls
        → length (peer.incoming s) ≤ work
        → Going this stalls work

  -- What a poll gives that has rounds enough: a stall less to come, or the stream.
  pub data Grants (stalls bound : ℕ) (m : Polled t) : Type 0 where
    stalled :
        (next : Tunnel t) {left : ℕ}
        → m ≡ ok (pending, next)
        → left < stalls
        → Going next left bound
        → Grants stalls bound m
    opened :
        (s : t.Stream) (next : Tunnel t)
        → m ≡ ok (ready (s, t.proxy true c), next)
        → Grants stalls bound m

  module _ (go : Tunnel t → Polled t) (stalls work bound : ℕ) (within : work ≤ bound)
      (ih : (next : Tunnel t) (left : ℕ)
        → left < work
        → Going next stalls left
        → Grants stalls bound (go next)) where
    judge-Grants :
        (this : Tunnel t) (s : t.Stream)
        → this.state ≡ reading
        → this.stream ≡ some s
        → this.connected ≡ some c
        → this.buf.bytes ++ peer.incoming s ≡ answer
        → peer.stalls s ≤ stalls
        → length (peer.incoming s) < work
        → Grants stalls bound (judge t go this this.buf.bytes)
    unfolding judge finish
    judge-Grants this s e₁ e₂ e₃ e₄ k w =
        let vec = this.buf.bytes in
        let more : peer.incoming s ≢ [] → Grants stalls bound (go this) =
          λ ne. ih this (length (peer.incoming s)) w (hearing s e₁ e₂ e₃ e₄ ne k (omega arith)) in
        let whole : peer.incoming s ≡ [] → vec ≡ answer =
          λ z. sym (append-nil vec) ∙ (ap (λ x. vec ++ x) (sym z) ∙ e₄) in
        elim (Bool-cases (ltb 12 (length vec))) [
          | inl long ↦
              let same = λ (pat : Bytes) (le : length pat ≤ length vec).
                sym (starts_with-append pat vec (peer.incoming s) le) ∙ ap (starts_with pat) e₄ in
              rw long (
                rw (same (codes "HTTP/1.1 200") (ground arith)) (
                  rw (same (codes "HTTP/1.0 200") (ground arith)) (
                    rw grant.granted (elim (Bool-cases (ends_with (crlf ++ crlf) vec)) [
                      | inl ended ↦ rw ended (rw e₂ (rw e₃ (opened s _ refl)))
                      | inr open_end ↦ rw open_end (
                          more
                            (λ z. absurd (ground (arith, grant.ended, rw (whole z) at open_end))))
                    ]))))
          | inr short ↦
              rw short (more (λ z. absurd (ground (arith, grant.longer, rw (whole z) at short))))
        ]

    after_read-Grants :
        (this : Tunnel t) (s : t.Stream) (p : Poll (IoResult ℕ)) (s' : t.Stream) (vec : Bytes)
        → t.read_buf s this.buf.bytes ≡ (p, s', vec)
        → this.state ≡ reading
        → this.connected ≡ some c
        → this.buf.bytes ++ peer.incoming s ≡ answer
        → peer.incoming s ≢ []
        → peer.stalls s ≤ stalls
        → length (peer.incoming s) ≤ work
        → Grants stalls bound (after_read t go this (p, s', vec))
    unfolding after_read
    after_read-Grants this s pending s' vec h e₁ e₃ e₄ ne k w =
        let (less, i) = peer.read_stalls s this.buf.bytes s' vec h in
        let (v, _) = law.read_pending s this.buf.bytes s' vec h in
        stalled _ refl (omega (arith, less, k)) (
          hearing s' {stalls = peer.stalls s'} e₁ refl e₃ (rw i (rw v e₄)) (rw i ne) (omega arith)
            (rw i (omega (arith, within, w))))
    after_read-Grants this s (ready r) s' vec h e₁ e₃ e₄ ne k w =
        let (got, q, pos, v, le, i) = peer.read_works s this.buf.bytes r s' vec ne h in
        let answered : (length got == 0) ≡ false = ground arith in
        rw q (
          rw answered (
            judge-Grants _ s' e₁ refl e₃
              (rw v (append_assoc this.buf.bytes got (peer.incoming s') ∙ (rw (sym i) e₄)))
              (omega (arith, le, k))
              (omega (arith, w, pos, ap length i, length-append got (peer.incoming s')))))

    after_write-Grants :
        (this : Tunnel t) (s : t.Stream) (p : Poll (IoResult ℕ)) (s' : t.Stream) (buf : Cursor)
        → t.write_buf s this.buf ≡ (p, s', buf)
        → this.state ≡ writing
        → this.connected ≡ some c
        → this.buf.position < length this.buf.bytes
        → peer.incoming s ≡ answer
        → peer.stalls s ≤ stalls
        → length this.buf.bytes - this.buf.position + length answer ≤ work
        → Grants stalls bound (after_write t go this (p, s', buf))
    unfolding after_write
    after_write-Grants this s pending s' buf h e₁ e₃ lt e₄ k w =
        let (less, i) = peer.write_stalls s this.buf s' buf h in
        let (b, q, _) = law.write_pending s this.buf s' buf h in
        stalled _ refl (omega (arith, less, k)) (
          asking s' {stalls = peer.stalls s'} e₁ refl e₃ (rw b (rw q lt)) (i ∙ e₄) (omega arith)
            (rw b (rw q (omega (arith, within, w)))))
    after_write-Grants this s (ready r) s' buf h e₁ e₃ lt e₄ k w =
        let (n, q, pos, le, i) = peer.write_works s this.buf r s' buf lt h in
        let (b, pl) = law.write_cursor s this.buf n s' buf (rw q at h) in
        let left = law.remaining buf in
        let wrote : (n == 0) ≡ false = ground arith in
        rw q (elim (Bool-cases (t.has_remaining_mut buf)) [
          | inl rest ↦
              let lt' : buf.position < length buf.bytes = ground (arith, left, rest) in
              rw rest (
                rw wrote (
                  ih _ (length buf.bytes - buf.position + length answer)
                    (omega (arith, w, pl, ap length b, pos, lt, lt'))
                    (asking s' e₁ refl e₃ lt' (i ∙ e₄) (omega (arith, le, k)) (omega arith))))
          | inr all ↦ rw all (
              ih _ (length answer) (omega (arith, w, lt)) (
                hearing s' refl refl e₃ (i ∙ e₄)
                  (λ z. absurd (omega (arith, grant.longer, ap length (sym (i ∙ e₄) ∙ z))))
                  (omega (arith, le, k)) (omega (arith, ap length (i ∙ e₄)))))
        ])

  pub round-Grants :
      (go : Tunnel t → Polled t) (stalls work bound : ℕ)
      → work ≤ bound
      → ((next : Tunnel t) (left : ℕ)
          → left < work
          → Going next stalls left
          → Grants stalls bound (go next))
      → (this : Tunnel t) → Going this stalls work
      → Grants stalls bound (round t go this this.state)
  unfolding round
  round-Grants go stalls work bound within ih this (asking s e₁ e₂ e₃ lt e₄ k w) =
      simp (e₁, e₂)
        (after_write-Grants go stalls work bound within ih this s _ _ _ refl e₁ e₃ lt e₄ k w)
  round-Grants go stalls work bound within ih this (hearing s e₁ e₂ e₃ e₄ ne k w) =
      simp (e₁, e₂)
        (after_read-Grants go stalls work bound within ih this s _ _ _ refl e₁ e₃ e₄ ne k w)
