-- ===== src/Proxy/Tunnel/Granted.antt =====
-- How many polls and rounds src/proxy/tunnel.rs needs for a tunnel that is granted.
use simple_http.Base.{ℕ, zero, suc, ◌+◌, ◌≤◌, ◌<◌, true, ◌≡◌, length, ok, arith, refl}
use simple_http.Base.Bytes.{Bytes}
use simple_http.Io.Drive.{drive}
use simple_http.Proxy.Tunnel.{TunnelIo, Tunnel, poll, poll_loop, with_stream}
use simple_http.Proxy.Tunnel.Sound.{TunnelLaw}
use simple_http.Proxy.Tunnel.Granting.{
  PeerAnswers, IsGrant, Going, asking, hearing, Grants, opened, stalled, round-Grants,
}

module _ (t : TunnelIo) (law : TunnelLaw t) (peer : PeerAnswers t law) {answer : Bytes}
    (grant : IsGrant answer) (c : t.Connected) where
  poll_loop-Grants :
      (fuel stalls work bound : ℕ) (this : Tunnel t)
      → work < fuel
      → work ≤ bound
      → Going t law peer grant c this stalls work
      → Grants t law peer grant c stalls bound (poll_loop t fuel this)
  unfolding poll_loop
  poll_loop-Grants zero stalls work bound this f within g = absurd (omega arith)
  poll_loop-Grants (suc fuel) stalls work bound this f within g =
      round-Grants t law peer grant c (poll_loop t fuel) stalls work bound within
        (λ next left lt going.
          poll_loop-Grants fuel stalls left bound next (omega arith) (omega arith) going)
        this g

  poll-Grants :
      (fuel stalls bound : ℕ) (this : Tunnel t)
      → bound < fuel
      → Going t law peer grant c this stalls bound
      → Grants t law peer grant c stalls bound (poll t fuel this)
  unfolding poll
  poll-Grants fuel stalls bound this f (asking s e₁ e₂ e₃ lt e₄ k w) =
      simp (e₂, e₃)
        (poll_loop-Grants fuel stalls bound bound this f (omega arith)
          (asking s e₁ e₂ e₃ lt e₄ k w))
  poll-Grants fuel stalls bound this f (hearing s e₁ e₂ e₃ e₄ ne k w) =
      simp (e₂, e₃)
        (poll_loop-Grants fuel stalls bound bound this f (omega arith)
          (hearing s e₁ e₂ e₃ e₄ ne k w))

  drive-Going :
      (polls fuel bound : ℕ) {stalls : ℕ} (this : Tunnel t)
      → stalls ≤ polls
      → bound < fuel
      → Going t law peer grant c this stalls bound
      → (s : t.Stream) × (drive (suc polls) (poll t fuel) this ≡ ok (s, t.proxy true c))
  unfolding drive
  drive-Going zero fuel bound {stalls} this le f g = elim (poll-Grants fuel stalls bound this f g) [
    | opened s next e ↦ (s, rw e refl)
    | stalled next e less going ↦ absurd (omega arith)
  ]
  drive-Going (suc polls) fuel bound {stalls} this le f g =
      elim (poll-Grants fuel stalls bound this f g) [
        | opened s next e ↦ (s, rw e refl)
        | stalled next e less going ↦
            let (s, d) = drive-Going polls fuel bound next (omega arith) f going in (s, rw e d)
      ]

  -- A tunnel whose peer grants it opens: with rounds for the bytes of the request and of the
  -- answer, and one poll more than the stream is not ready.
  pub drive-granted :
      (polls fuel : ℕ) (req : Bytes) (s : t.Stream)
      → 0 < length req
      → peer.incoming s ≡ answer
      → peer.stalls s ≤ polls
      → length req + length answer < fuel
      → (s' : t.Stream) × (drive (suc polls) (poll t fuel) (with_stream t req s c)
          ≡ ok (s', t.proxy true c))
  unfolding with_stream
  drive-granted polls fuel req s pos i k f =
      drive-Going polls fuel (length req + length answer) (with_stream t req s c) k f
        (asking s refl refl refl pos i (omega arith) (omega arith))
