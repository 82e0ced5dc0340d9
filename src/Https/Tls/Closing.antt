-- ===== src/Https/Tls/Closing.antt =====
-- In which order a stream of src/https/stream.rs is shut down.
use simple_http.Base.{Bool, true, ◌≡◌, ◌∙◌, sym, ap, refl, inl, inr}
use simple_http.Io.{
  ErrorKind, other, invalid_input, would_block, external, IoError, IoResult, ready,
}
use simple_http.Io.Streams.{AsyncIo}
use simple_http.Https.Tls.{
  Native, TlsStream, shutdown, shutdown_transport, after_shutdown, failed_shutdown,
}

-- What is documented of a session. `notified` says that the peer has been told of the end, and
-- `closed` that the transport is shut down.
pub record ClosingLaw (base : AsyncIo) (n : Native base) : Type 0 where
  pub notified : n.Session → Bool
  pub closed : base.Stream → Bool
  pub shutdown_notifies :
      (s s' : n.Session) (done : Unit {0}) → n.shutdown s ≡ (inr done, s') → notified s' ≡ true
  pub shutdown_closes :
      (t t' : base.Stream) (done : Unit {0})
      → base.shutdown t ≡ (ready (inr done), t')
      → closed t' ≡ true
  -- A session holds one transport, and exchanging it says nothing to the peer.
  pub transport_put : (t : base.Stream) (s : n.Session) → n.transport (n.with_transport t s) ≡ t
  pub notified_put :
      (t : base.Stream) (s : n.Session) → notified (n.with_transport t s) ≡ notified s

module _ (base : AsyncIo) (n : Native base) (law : ClosingLaw base n) where
  -- The session is over on both levels.
  pub record Closed (this : TlsStream base n) : Type 0 where
    pub told : law.notified this.inner ≡ true
    pub cut : law.closed (n.transport this.inner) ≡ true

  shutdown_transport-Closed :
      (s : n.Session) (this : TlsStream base n) (done : Unit {0})
      → law.notified s ≡ true
      → shutdown_transport base n s ≡ (ready (inr done), this)
      → Closed this
  unfolding shutdown_transport
  shutdown_transport-Closed s this done h e =
      let t' = (base.shutdown (n.transport s)).1 in
      let kept : this.inner ≡ n.with_transport t' s = sym (ap (λ x. x.1.inner) e) in
      let shut = law.shutdown_closes (n.transport s) t' done (ap (λ x. (x.0, t')) e) in
      record {
        told = rw kept (law.notified_put t' s ∙ h);
        cut = rw kept (rw law.transport_put shut);
      }

  failed_shutdown-not_done :
      (e : IoError) (k : ErrorKind) (s : n.Session) (this : TlsStream base n) (done : Unit {0})
      → ¬ (failed_shutdown base n e k s ≡ (ready (inr done), this))
  failed_shutdown-not_done e other s this done h = absurd cc
  failed_shutdown-not_done e invalid_input s this done h = absurd cc
  failed_shutdown-not_done e would_block s this done h = absurd cc
  failed_shutdown-not_done e (external x) s this done h = absurd cc

  after_shutdown-Closed :
      (p : IoResult (Unit {0}) × n.Session) (s : n.Session) (this : TlsStream base n)
      (done : Unit {0})
      → n.shutdown s ≡ p
      → after_shutdown base n p ≡ (ready (inr done), this)
      → Closed this
  unfolding after_shutdown
  after_shutdown-Closed (inr u, s') s this done e h =
      shutdown_transport-Closed s' this done (law.shutdown_notifies s s' u e) h
  after_shutdown-Closed (inl x, s') s this done e h =
      absurd (failed_shutdown-not_done x x.kind s' this done h)

  -- When a shutdown has succeeded, the peer was told of the end and the transport is shut down.
  pub shutdown-Closed :
      (this : TlsStream base n) {after : TlsStream base n} {done : Unit {0}}
      → shutdown base n this ≡ (ready (inr done), after)
      → Closed after
  unfolding shutdown
  shutdown-Closed this {after} {done} h =
      after_shutdown-Closed (n.shutdown this.inner) this.inner after done refl h
