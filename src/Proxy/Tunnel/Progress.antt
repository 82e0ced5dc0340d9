-- ===== src/Proxy/Tunnel/Progress.antt =====
-- That a poll of src/proxy/tunnel.rs ends, when the peer has only so many bytes to send.
use simple_http.Base.{
  ℕ, zero, suc, ◌+◌, ◌-◌, ◌≤◌, ◌<◌, ◌||◌, Option, none, some, inl, ◌≡◌, inr, length, ◌==◌, arith,
  refl, Bool-cases, ap, Returns, Returns-ok, Returns-err, Returns-panic, Returns-if, returns_rules,
}
use simple_http.Base.Bytes.{Bytes}
use simple_http.Io.{IoResult, Poll, pending, ready}
use simple_http.Io.Streams.{Cursor}
use simple_http.Proxy.Tunnel.{
  TunnelIo, Tunnel, TunnelState, writing, reading, Polled, poll, poll_loop, round, after_read,
  after_write, judge, finish, is_none,
}
use simple_http.Proxy.Tunnel.Sound.{TunnelLaw}

-- `quota` bounds the bytes that the stream can still give.
pub record PeerLaw (t : TunnelIo) : Type 0 where
  pub quota : t.Stream → ℕ
  pub read_quota :
      (s : t.Stream) (vec : Bytes) (n : ℕ) (s' : t.Stream) (vec' : Bytes)
      → t.read_buf s vec ≡ (ready (inr n), s', vec')
      → quota s' + n ≤ quota s
  pub write_quota :
      (s : t.Stream) (c : Cursor) (n : ℕ) (s' : t.Stream) (c' : Cursor)
      → t.write_buf s c ≡ (ready (inr n), s', c')
      → quota s' ≤ quota s

module _ (t : TunnelIo) (law : TunnelLaw t) (peer : PeerLaw t) where
  -- The bytes to write and to read.
  abbrev pub budget : TunnelState → Cursor → Option t.Stream → ℕ
  budget writing buf (some s) = length buf.bytes - buf.position + peer.quota s + 1
  budget reading buf (some s) = peer.quota s
  budget writing buf none = 0
  budget reading buf none = 0

  Returns-finish : (this : Tunnel t) → Returns (finish t this)
  unfolding finish
  Returns-finish this = search returns_rules depth 9

  Returns-judge :
      (go : Tunnel t → Polled t) (this : Tunnel t) (vec : Bytes)
      → Returns (go this)
      → Returns (judge t go this vec)
  unfolding judge
  Returns-judge go this vec r = search (returns_rules, Returns-finish) depth 9

  module _ (go : Tunnel t → Polled t) (fuel : ℕ)
      (ih : (next : Tunnel t)
        → budget next.state next.buf next.stream < fuel
        → Returns (go next)) where
    Returns-after_read :
        (this : Tunnel t) (s : t.Stream) (p : Poll (IoResult ℕ)) (s' : t.Stream) (vec : Bytes)
        → t.read_buf s this.buf.bytes ≡ (p, s', vec)
        → this.state ≡ reading
        → peer.quota s ≤ fuel
        → Returns (after_read t go this (p, s', vec))
    unfolding after_read
    Returns-after_read this s pending s' vec h e k = Returns-ok _
    Returns-after_read this s (ready (inl x)) s' vec h e k = Returns-err _
    Returns-after_read this s (ready (inr n)) s' vec h e k = elim (Bool-cases (n == 0)) [
      | inl closed ↦ rw closed (Returns-err _)
      | inr answered ↦ rw answered (
          Returns-judge go _ vec
            (ih _ (rw e (ground (arith, peer.read_quota s this.buf.bytes n s' vec h)))))
    ]

    Returns-after_write :
        (this : Tunnel t) (s : t.Stream) (p : Poll (IoResult ℕ)) (s' : t.Stream) (buf : Cursor)
        → t.write_buf s this.buf ≡ (p, s', buf)
        → this.state ≡ writing
        → length this.buf.bytes - this.buf.position + peer.quota s < fuel
        → Returns (after_write t go this (p, s', buf))
    unfolding after_write
    Returns-after_write this s pending s' buf h e k = Returns-ok _
    Returns-after_write this s (ready (inl x)) s' buf h e k = Returns-err _
    Returns-after_write this s (ready (inr n)) s' buf h e k =
        let q = peer.write_quota s this.buf n s' buf h in
        let (b, p) = law.write_cursor s this.buf n s' buf h in
        elim (Bool-cases (t.has_remaining_mut buf)) [
          | inl rest ↦ rw rest (elim (Bool-cases (n == 0)) [
            | inl closed ↦ rw closed (Returns-err _)
            | inr wrote ↦
                rw wrote (ih _ (rw e (ground (arith, q, p, ap length b, law.remaining buf))))
          ])
          | inr all ↦ rw all (ih _ (omega (arith, q)))
        ]

  Returns-round :
      (go : Tunnel t → Polled t) (fuel : ℕ)
      → ((next : Tunnel t) → budget next.state next.buf next.stream < fuel → Returns (go next))
      → (this : Tunnel t) (state : TunnelState) (stream : Option t.Stream) → this.state ≡ state
      → this.stream ≡ stream
      → budget state this.buf stream < suc fuel
      → Returns (round t go this state)
  unfolding round
  Returns-round go fuel ih this writing none e₁ e₂ h = simp e₂ Returns-panic
  Returns-round go fuel ih this reading none e₁ e₂ h = simp e₂ Returns-panic
  Returns-round go fuel ih this writing (some s) e₁ e₂ h =
      simp e₂ (Returns-after_write go fuel ih this s _ _ _ refl e₁ (omega arith))
  Returns-round go fuel ih this reading (some s) e₁ e₂ h =
      simp e₂ (Returns-after_read go fuel ih this s _ _ _ refl e₁ (omega arith))

  Returns-poll_loop :
      (fuel : ℕ) (this : Tunnel t)
      → budget this.state this.buf this.stream < fuel
      → Returns (poll_loop t fuel this)
  unfolding poll_loop
  Returns-poll_loop zero this h = elim h [ ]
  Returns-poll_loop (suc fuel) this h =
      Returns-round (poll_loop t fuel) fuel (Returns-poll_loop fuel) this this.state this.stream
        refl refl h

  -- A poll of a tunnel ends: fuel for the bytes that are to be written and those that the peer can
  -- still send is enough.
  pub Returns-poll :
      (fuel : ℕ) (this : Tunnel t)
      → budget this.state this.buf this.stream < fuel
      → Returns (poll t fuel this)
  unfolding poll
  Returns-poll fuel this h =
      Returns-if (is_none this.stream || is_none this.connected) Returns-panic
        (Returns-poll_loop fuel this h)
