-- ===== src/Https/Client/Handshakes.antt =====
-- How long the handshake of src/https/client.rs takes.
use simple_http.Base.{
  ℕ, zero, suc, ◌≤◌, some, ◌⊎◌, inl, inr, ◌≡◌, refl, arith, Outcome, ok, err, ◌>>=◌,
}
use simple_http.Io.Streams.{AsyncIo}
use simple_http.Io.Drive.{drive, after_poll}
use simple_http.Https.Tls.{Native}
use simple_http.Https.Client.{
  failure, would_block, TlsClient, Handshake, after_handshake, poll_inner, poll,
}

module _ (base : AsyncIo) (n : Native base) (t : TlsClient base n) where
  -- The handshake blocks so many times, and then succeeds or fails.
  pub data Settles : ℕ → Handshake base n t → t.TlsError ⊎ n.Session → Type 0 where
    succeeds : (s : n.Session) → Settles 0 (inr s) (inr s)
    breaks : (e : t.TlsError) → Settles 0 (inl (failure e)) (inl e)
    blocks :
        (mid : t.MidHandshake) {rounds : ℕ} {r : t.TlsError ⊎ n.Session}
        → Settles rounds (t.handshake mid) r
        → Settles (suc rounds) (inl (would_block mid)) r

  abbrev pub outcome : t.TlsError ⊎ n.Session → Outcome t.TlsError n.Session
  outcome (inl e) = err e
  outcome (inr s) = ok s

  after_handshake-Settles :
      {rounds polls : ℕ} {hs : Handshake base n t} {r : t.TlsError ⊎ n.Session}
      → Settles rounds hs r
      → rounds ≤ polls
      → after_handshake base n t hs >>= after_poll (drive polls (poll base n t)) ≡ outcome r
  unfolding drive poll poll_inner
  after_handshake-Settles (succeeds s) h = refl
  after_handshake-Settles (breaks e) h = refl
  after_handshake-Settles {polls = zero} (blocks mid st) h = absurd (omega arith)
  after_handshake-Settles {polls = suc polls} (blocks mid st) h =
      after_handshake-Settles {polls = polls} st (omega arith)

  -- A handshake that blocks a number of times and then settles is settled by as many polls, one at
  -- least: the future gives the session or the error of the TLS library.
  pub drive-Settles :
      {rounds : ℕ} (polls : ℕ) {hs : Handshake base n t} {r : t.TlsError ⊎ n.Session}
      → Settles rounds hs r
      → rounds ≤ suc polls
      → drive (suc polls) (poll base n t) (record { inner = some hs }) ≡ outcome r
  unfolding drive poll poll_inner
  drive-Settles polls (succeeds s) h = refl
  drive-Settles polls (breaks e) h = refl
  drive-Settles polls (blocks mid st) h = after_handshake-Settles st (omega arith)
