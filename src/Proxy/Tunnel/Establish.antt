-- ===== src/Proxy/Tunnel/Establish.antt =====
-- What src/proxy/tunnel.rs has exchanged when it gives the stream out.
use simple_http.Base.{ℕ, [], ◌≡◌, ok, refl, subst}
use simple_http.Base.Bytes.{Bytes}
use simple_http.Io.{pending}
use simple_http.Proxy.Tunnel.{TunnelIo, Tunnel, poll, with_stream}
use simple_http.Proxy.Tunnel.Sound.{
  TunnelLaw, Sound, sending, SoundResult, waits, opens, fails, spent, poll-Sound,
}

module _ (t : TunnelIo) (law : TunnelLaw t) (req : Bytes) where
  -- The tunnel between two polls: each one before has answered `NotReady`.
  pub data Waits : Tunnel t → Tunnel t → Type 0 where
    started : {a b : Tunnel t} → b ≡ a → Waits a b
    polled : {a b c : Tunnel t} (fuel : ℕ) → Waits a b → poll t fuel b ≡ ok (pending, c) → Waits a c

  pub Waits-Sound : {a b : Tunnel t} → Waits a b → Sound t law req a → Sound t law req b
  Waits-Sound (started e) h = rw e h
  Waits-Sound (polled {b = b} {c = c} fuel w e) h =
      elim (poll-Sound t law req fuel b (Waits-Sound w h)) [
        | waits next e' s ↦ let same : next ≡ c = cc in subst (Sound t law req) same s
        | opens s c next e' n o ↦ absurd cc
        | fails x e' ↦ absurd cc
        | spent e' ↦ absurd cc
      ]

  -- A tunnel over a fresh stream, after any number of polls that were not ready, is polled without
  -- a panic. When it gives the stream out, the whole request was sent, the answer begins with
  -- status 200 of HTTP/1.0 or 1.1, and all that was received ends in a blank line.
  pub poll-Opened :
      (s : t.Stream) (c : t.Connected) {this : Tunnel t} (fuel : ℕ)
      → law.sent s ≡ []
      → law.received s ≡ []
      → Waits (with_stream t req s c) this
      → SoundResult t law req (poll t fuel this)
  unfolding with_stream
  poll-Opened s c {this} fuel e₁ e₂ w =
      poll-Sound t law req fuel this (Waits-Sound w (sending s c refl refl refl refl e₁ e₂))
