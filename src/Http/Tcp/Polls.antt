-- ===== src/Http/Tcp/Polls.antt =====
-- Runs of polls of the connecting state of src/http/mod.rs, and the address that is taken.
use simple_http.Base.{
  Bool, Option, none, some, [], ◌∷◌, ◌++◌, ◌≡◌, inl, inr, ok, panic, refl, arith, subst,
}
use simple_http.Io.{IoError, pending, ready}
use simple_http.Http.Dns.{IpAddr, SocketAddr, IpAddrs, split_by_preference, partition, is_empty}
use simple_http.Http.Tcp.{
  TcpIo, connect, ConnectingTcp, remote_new, new, try_next, poll_current, remote_poll, poll,
}
use simple_http.Http.Tcp.Usable.{TcpLaw}
use simple_http.Http.Tcp.Live.{TcpResult, stays, tcp_fails, Live, poll-TcpResult, new-Live}

-- The connecting state between two polls: each one before has not ended it.
pub data Waiting (t : TcpIo) (handle : Option t.Handle)
    : ConnectingTcp t → ConnectingTcp t → Type 0 where
  fresh : {a b : ConnectingTcp t} → b ≡ a → Waiting t handle a b
  waited :
      {a b c : ConnectingTcp t}
      → Waiting t handle a b
      → poll t handle b ≡ ok (pending, c)
      → Waiting t handle a c

module _ (t : TcpIo) (law : TcpLaw t) (handle : Option t.Handle) where
  Waiting-Live : {a b : ConnectingTcp t} → Waiting t handle a b → Live a → Live b
  Waiting-Live (fresh e) l = rw e l
  Waiting-Live (waited {b = b} {c = c} w e) l =
      elim (poll-TcpResult t law handle b (Waiting-Live w l)) [
        | stays p next e' k ↦ let same : next ≡ c = ground (arith, e, e') in subst Live same k
        | tcp_fails x e' ↦ absurd (ground (arith, e, e'))
      ]

  -- A connecting state with at least one address is never polled into a panic: after any number of
  -- polls that were not ready, the next one gives an error or a state that can be polled again.
  pub poll-Waiting :
      (now : t.Instant) (local : Option IpAddr) (a : SocketAddr) (tail : IpAddrs)
      (timeout : Option t.Duration) (reuse : Bool) {this : ConnectingTcp t}
      → Waiting t handle (new t now local (a ∷ tail) timeout reuse) this
      → TcpResult (poll t handle this)
  poll-Waiting now local a tail timeout reuse {this} w =
      poll-TcpResult t law handle this
        (Waiting-Live w (new-Live t law now local a tail timeout reuse))

module _ (t : TcpIo) (handle : Option t.Handle) where
  -- With no address at all, the first poll panics, with or without a fallback.
  pub poll-new_empty :
      (now : t.Instant) (local : Option IpAddr) (timeout : Option t.Duration) (reuse : Bool)
      → poll t handle (new t now local [] timeout reuse) ≡ panic
  unfolding poll new split_by_preference is_empty partition remote_poll poll_current try_next
  poll-new_empty now local none reuse = refl
  poll-new_empty now local (some timeout) reuse = refl

module _ (t : TcpIo) (local : Option IpAddr) (handle : Option t.Handle) (reuse : Bool) where
  -- The addresses whose attempts fail at the first poll.
  pub data Refused : IpAddrs → Type 0 where
    none_refused : Refused []
    also_refused :
        (a : SocketAddr) (fut fut' : t.ConnectFuture) (e : IoError) {tail : IpAddrs}
        → connect t a local handle reuse ≡ ok fut
        → t.poll_connect fut ≡ (ready (inl e), fut')
        → Refused tail
        → Refused (a ∷ tail)

  try_next-Refused :
      {before : IpAddrs} (after : IpAddrs) (a : SocketAddr) (fut fut' : t.ConnectFuture)
      (stream : t.TcpStream) (last : Option IoError)
      → Refused before
      → connect t a local handle reuse ≡ ok fut
      → t.poll_connect fut ≡ (ready (inr stream), fut')
      → try_next t local handle reuse (before ++ a ∷ after) last
        ≡ ok (ready stream, record { addrs = after; current = some fut' })
  unfolding try_next
  try_next-Refused after a fut fut' stream last none_refused c p = rw c (rw p refl)
  try_next-Refused after a fut fut' stream last (also_refused b f f' e c' p' r) c p =
      rw c' (rw p' (try_next-Refused after a fut fut' stream (some e) r c p))

  -- One poll of a new remote goes through the addresses in order, past those that refuse, and
  -- gives the stream of the first that accepts; the addresses behind it are left.
  pub remote_poll-Refused :
      {before : IpAddrs} (after : IpAddrs) (a : SocketAddr) (fut fut' : t.ConnectFuture)
      (stream : t.TcpStream)
      → Refused before
      → connect t a local handle reuse ≡ ok fut
      → t.poll_connect fut ≡ (ready (inr stream), fut')
      → remote_poll t local handle reuse (remote_new t (before ++ a ∷ after))
        ≡ ok (ready stream, record { addrs = after; current = some fut' })
  unfolding remote_poll poll_current
  remote_poll-Refused after a fut fut' stream r c p =
      try_next-Refused after a fut fut' stream none r c p
