-- ===== src/Http/Tcp/Takeover.antt =====
-- How the addresses of the other family take over in src/http/mod.rs.
use simple_http.Base.{Bool, false, Option, none, some, [], ◌∷◌, ◌++◌, ◌≡◌, inr, refl, ok, err}
use simple_http.Io.{IoError, ready}
use simple_http.Http.Dns.{IpAddr, SocketAddr, IpAddrs, split_by_preference, is_empty}
use simple_http.Http.Tcp.{
  TcpIo, connect, ConnectingTcp, remote_new, new, with_fallback, try_next, poll_current,
  remote_poll, after_preferred, poll_with, poll,
}
use simple_http.Http.Tcp.Polls.{Refused, none_refused, also_refused, remote_poll-Refused}

is_empty-append_cons :
    (xs : IpAddrs) (a : SocketAddr) (ys : IpAddrs) → is_empty (xs ++ a ∷ ys) ≡ false
unfolding is_empty
is_empty-append_cons [] a ys = refl
is_empty-append_cons (x ∷ xs) a ys = refl

module _ (t : TcpIo) (local : Option IpAddr) (handle : Option t.Handle) (reuse : Bool) where
  try_next-err :
      {addrs : IpAddrs} (e : IoError)
      → Refused t local handle reuse addrs
      → (e' : IoError) × (try_next t local handle reuse addrs (some e) ≡ err e')
  unfolding try_next
  try_next-err e none_refused = (e, refl)
  try_next-err e (also_refused a f f' x c p r) =
      let (e', h) = try_next-err x r in (e', rw c (rw p h))

  remote_poll-err :
      (a : SocketAddr) (tail : IpAddrs)
      → Refused t local handle reuse (a ∷ tail)
      → (e : IoError) × (remote_poll t local handle reuse (remote_new t (a ∷ tail)) ≡ err e)
  unfolding remote_poll poll_current try_next
  remote_poll-err a tail (also_refused b f f' x c p r) =
      let (e', h) = try_next-err x r in (e', rw c (rw p h))

  with_fallback-ready :
      (delay : t.Delay) (a : SocketAddr) (tail before after : IpAddrs) (b : SocketAddr)
      (fut fut' : t.ConnectFuture) (stream : t.TcpStream)
      → Refused t local handle reuse (a ∷ tail)
      → Refused t local handle reuse before
      → connect t b local handle reuse ≡ ok fut
      → t.poll_connect fut ≡ (ready (inr stream), fut')
      → (next : ConnectingTcp t) × (poll t handle
            (with_fallback t local reuse delay (a ∷ tail, before ++ b ∷ after))
          ≡ ok (ready stream, next))
  unfolding poll poll_with after_preferred
  with_fallback-ready delay a tail before after b fut fut' stream first second c p =
      let (e, h) = remote_poll-err a tail first in
      (
        record (with_fallback t local reuse delay (a ∷ tail, before ++ b ∷ after)) {
          preferred = record { addrs = after; current = some fut' };
          fallback = none;
        },
        rw is_empty-append_cons (
            rw h (
              rw (remote_poll-Refused t local handle reuse after b fut fut' stream second c p)
                refl)),
      )

  -- Where all addresses of the preferred family refuse at once, the same poll goes on to the other
  -- family, without waiting for the delay, and gives the stream of its first address that accepts.
  pub poll-new_takeover :
      (now : t.Instant) (timeout : t.Duration) (addrs : IpAddrs) (a : SocketAddr)
      (tail before after : IpAddrs) (b : SocketAddr) (fut fut' : t.ConnectFuture)
      (stream : t.TcpStream)
      → split_by_preference addrs ≡ (a ∷ tail, before ++ b ∷ after)
      → Refused t local handle reuse (a ∷ tail)
      → Refused t local handle reuse before
      → connect t b local handle reuse ≡ ok fut
      → t.poll_connect fut ≡ (ready (inr stream), fut')
      → (next : ConnectingTcp t) × (poll t handle (new t now local addrs (some timeout) reuse)
          ≡ ok (ready stream, next))
  unfolding new
  poll-new_takeover now timeout addrs a tail before after b fut fut' stream s first second c p =
      rw s (
        with_fallback-ready (t.delay_after now timeout) a tail before after b fut fut' stream first
          second c p)
