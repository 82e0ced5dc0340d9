-- ===== src/Http/Tcp/Live.antt =====
-- The connecting state of src/http/mod.rs, with its fallback, can always be polled.
use simple_http.Base.{
  Bool, true, false, Option, none, some, [], ◌∷◌, ◌≡◌, ok, err, ◌>>=◌, refl, sym, subst,
}
use simple_http.Io.{IoError, Poll, pending, ready}
use simple_http.Http.Dns.{IpAddr, SocketAddr, IpAddrs, split_by_preference, is_empty}
use simple_http.Http.Dns.Preference.{split_by_preference-Merges}
use simple_http.Http.Tcp.{
  TcpIo, ConnectingTcpFallback, ConnectingTcp, new, RemotePolled, keep_preferred, with_fallback,
  poll_with, TcpPolled, after_fallback, after_delay, after_preferred, poll,
}
use simple_http.Http.Tcp.Usable.{
  TcpLaw, Usable, untried, RemoteResult, goes_on, remote_fails, remote_poll-RemoteResult,
}

-- No fallback, or one with a remote that can be polled.
pub data FallbackUsable {t : TcpIo} (o : Option (ConnectingTcpFallback t)) : Type 0 where
  absent : o ≡ none → FallbackUsable o
  present : (fb : ConnectingTcpFallback t) → o ≡ some fb → Usable fb.remote → FallbackUsable o

-- Both remotes of the connecting state can be polled.
pub record Live {t : TcpIo} (this : ConnectingTcp t) : Type 0 where
  pub first : Usable this.preferred
  pub second : FallbackUsable this.fallback

pub data TcpResult {t : TcpIo} (m : TcpPolled t) : Type 0 where
  stays :
      (p : Poll t.TcpStream) (next : ConnectingTcp t) → m ≡ ok (p, next) → Live next → TcpResult m
  tcp_fails : (e : IoError) → m ≡ err e → TcpResult m

module _ (t : TcpIo) (law : TcpLaw t) where
  keep_preferred-TcpResult :
      (this : ConnectingTcp t) (m : RemotePolled t)
      → RemoteResult m
      → TcpResult (m >>= keep_preferred t this)
  keep_preferred-TcpResult this m (goes_on p r e u) =
      rw e (stays p _ refl (record { first = u; second = absent refl }))
  keep_preferred-TcpResult this m (remote_fails x e) = rw e (tcp_fails x refl)

  after_fallback-TcpResult :
      (this : ConnectingTcp t) (delay : t.Delay) (m : RemotePolled t)
      → Usable this.preferred
      → RemoteResult m
      → TcpResult (after_fallback t this delay m)
  unfolding after_fallback
  after_fallback-TcpResult this delay m u (goes_on pending r e v) =
      rw e (stays _ _ refl (record { first = u; second = present _ refl v }))
  after_fallback-TcpResult this delay m u (goes_on (ready s) r e v) =
      rw e (stays _ _ refl (record { first = v; second = absent refl }))
  after_fallback-TcpResult this delay m u (remote_fails x e) =
      rw e (stays _ _ refl (record { first = u; second = absent refl }))

  after_delay-TcpResult :
      (handle : Option t.Handle) (this : ConnectingTcp t) (fb : ConnectingTcpFallback t)
      (p : Poll Bool × t.Delay)
      → Usable this.preferred
      → Usable fb.remote
      → TcpResult (after_delay t handle this fb p)
  unfolding after_delay
  after_delay-TcpResult handle this fb (ready true, d) u v =
      after_fallback-TcpResult this d _ u
        (remote_poll-RemoteResult t law this.local_addr handle this.reuse_address fb.remote v)
  after_delay-TcpResult handle this fb (ready false, d) u v =
      stays _ _ refl (record { first = u; second = absent refl })
  after_delay-TcpResult handle this fb (pending, d) u v =
      stays _ _ refl (record { first = u; second = present _ refl v })

  after_preferred-TcpResult :
      (handle : Option t.Handle) (this : ConnectingTcp t) (fb : ConnectingTcpFallback t)
      (m : RemotePolled t)
      → Usable fb.remote
      → RemoteResult m
      → TcpResult (after_preferred t handle this fb m)
  unfolding after_preferred
  after_preferred-TcpResult handle this fb m v (goes_on pending r e u) =
      rw e (
        after_delay-TcpResult handle (record this { preferred = r }) fb (t.poll_delay fb.delay) u v)
  after_preferred-TcpResult handle this fb m v (goes_on (ready s) r e u) =
      rw e (stays _ _ refl (record { first = u; second = absent refl }))
  after_preferred-TcpResult handle this fb m v (remote_fails x e) = rw e (
      keep_preferred-TcpResult this _
        (remote_poll-RemoteResult t law this.local_addr handle this.reuse_address fb.remote v))

  poll_with-TcpResult :
      (handle : Option t.Handle) (this : ConnectingTcp t) (o : Option (ConnectingTcpFallback t))
      → Usable this.preferred
      → FallbackUsable o
      → TcpResult (poll_with t handle this o)
  unfolding poll_with
  poll_with-TcpResult handle this o u (absent n) = rw n (
      keep_preferred-TcpResult this _
        (remote_poll-RemoteResult t law this.local_addr handle this.reuse_address this.preferred u))
  poll_with-TcpResult handle this o u (present fb s v) = rw s (
      after_preferred-TcpResult handle this fb _ v
        (remote_poll-RemoteResult t law this.local_addr handle this.reuse_address this.preferred u))

  -- The invariant of the connecting state: a poll of a live state does not panic, and leaves a
  -- live state unless it fails.
  pub poll-TcpResult :
      (handle : Option t.Handle) (this : ConnectingTcp t)
      → Live this
      → TcpResult (poll t handle this)
  unfolding poll
  poll-TcpResult handle this l = poll_with-TcpResult handle this this.fallback l.first l.second

  with_fallback-Live :
      (local : Option IpAddr) (reuse : Bool) (delay : t.Delay) (a : SocketAddr) (first : IpAddrs)
      (second : IpAddrs)
      → Live (with_fallback t local reuse delay (a ∷ first, second))
  unfolding is_empty
  with_fallback-Live local reuse delay a first [] = record {
    first = untried a first refl;
    second = absent refl;
  }
  with_fallback-Live local reuse delay a first (b ∷ second) = record {
    first = untried a first refl;
    second = present _ refl (untried b second refl);
  }

  -- With an address to try, the connecting state starts live.
  pub new-Live :
      (now : t.Instant) (local : Option IpAddr) (a : SocketAddr) (tail : IpAddrs)
      (timeout : Option t.Duration) (reuse : Bool)
      → Live (new t now local (a ∷ tail) timeout reuse)
  unfolding new
  new-Live now local a tail none reuse = record {
    first = untried a tail refl;
    second = absent refl;
  }
  new-Live now local a tail (some timeout) reuse =
      let (parts, first, e) = split_by_preference-Merges a tail in
      subst
        (λ p. Live (
          with_fallback t local reuse (t.delay_after now timeout)
            (p, (split_by_preference (a ∷ tail)).1)))
        (sym e)
        (with_fallback-Live local reuse (t.delay_after now timeout) a first
          (split_by_preference (a ∷ tail)).1)
