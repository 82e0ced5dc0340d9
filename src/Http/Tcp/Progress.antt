-- ===== src/Http/Tcp/Progress.antt =====
-- That every poll of the connecting state of src/http/mod.rs ends.
use simple_http.Base.{
  Bool, true, false, Option, none, some, [], ◌∷◌, inl, inr, Outcome, ok, err, panic, out_of_fuel,
  ◌>>=◌, refl, Returns, Returns-ok, Returns-err, Returns-panic, Returns-bind,
}
use simple_http.Io.{IoError, IoResult, Poll, pending, ready}
use simple_http.Http.Dns.{IpAddr, IpAddrs}
use simple_http.Http.Tcp.{
  TcpIo, ConnectingTcpRemote, ConnectingTcpFallback, ConnectingTcp, RemotePolled, after_attempt,
  give_up, keep_preferred, try_next, poll_current, poll_with, remote_poll, after_fallback,
  after_delay, after_preferred, poll,
}
use simple_http.Http.Tcp.Usable.{Answers, answers_ok, answers_err, TcpLaw, Answers-connect}

pub Answers-Returns : {A : Type 0} {m : Outcome IoError A} → Answers m → Returns m
Answers-Returns (answers_ok a e) = rw e (Returns-ok a)
Answers-Returns (answers_err x e) = rw e (Returns-err x)

module _ (t : TcpIo) (law : TcpLaw t) where
  Returns-give_up : (last : Option IoError) → Returns (give_up t last)
  Returns-give_up none = Returns-panic
  Returns-give_up (some e) = Returns-err e

  Returns-after_attempt :
      (go : Option IoError → RemotePolled t) (addrs : IpAddrs)
      (p : Poll (IoResult t.TcpStream) × t.ConnectFuture)
      → ((last : Option IoError) → Returns (go last))
      → Returns (after_attempt t go addrs p)
  Returns-after_attempt go addrs (pending, fut) h = Returns-ok _
  Returns-after_attempt go addrs (ready (inr s), fut) h = Returns-ok _
  Returns-after_attempt go addrs (ready (inl e), fut) h = h (some e)

  module _ (local : Option IpAddr) (handle : Option t.Handle) (reuse : Bool) where
    Returns-try_next :
        (addrs : IpAddrs) (last : Option IoError)
        → Returns (try_next t local handle reuse addrs last)
    unfolding try_next
    Returns-try_next [] last = Returns-give_up last
    Returns-try_next (a ∷ tail) last =
        Returns-bind _ _ (Answers-Returns (Answers-connect t law a local handle reuse)) (λ fut.
          Returns-after_attempt (try_next t local handle reuse tail) tail (t.poll_connect fut)
            (Returns-try_next tail))

    Returns-poll_current :
        (addrs : IpAddrs) (current : Option t.ConnectFuture)
        → Returns (poll_current t local handle reuse addrs current)
    unfolding poll_current
    Returns-poll_current addrs none = Returns-try_next addrs none
    Returns-poll_current addrs (some fut) =
        Returns-after_attempt (try_next t local handle reuse addrs) addrs (t.poll_connect fut)
          (Returns-try_next addrs)

    Returns-remote_poll : (r : ConnectingTcpRemote t) → Returns (remote_poll t local handle reuse r)
    unfolding remote_poll
    Returns-remote_poll r = Returns-poll_current r.addrs r.current

  Returns-after_fallback :
      (this : ConnectingTcp t) (delay : t.Delay) (m : RemotePolled t)
      → Returns m
      → Returns (after_fallback t this delay m)
  unfolding after_fallback
  Returns-after_fallback this delay (ok (ready s, r)) h = Returns-ok _
  Returns-after_fallback this delay (ok (pending, r)) h = Returns-ok _
  Returns-after_fallback this delay (err e) h = Returns-ok _
  Returns-after_fallback this delay panic h = Returns-panic
  Returns-after_fallback this delay out_of_fuel h = absurd (h.ne refl)

  Returns-after_delay :
      (handle : Option t.Handle) (this : ConnectingTcp t) (fb : ConnectingTcpFallback t)
      (p : Poll Bool × t.Delay)
      → Returns (after_delay t handle this fb p)
  unfolding after_delay
  Returns-after_delay handle this fb (ready true, d) =
      Returns-after_fallback this d _
        (Returns-remote_poll this.local_addr handle this.reuse_address fb.remote)
  Returns-after_delay handle this fb (ready false, d) = Returns-ok _
  Returns-after_delay handle this fb (pending, d) = Returns-ok _

  Returns-keep_preferred :
      (this : ConnectingTcp t) (m : RemotePolled t)
      → Returns m
      → Returns (m >>= keep_preferred t this)
  Returns-keep_preferred this m h = Returns-bind m (keep_preferred t this) h (λ p. Returns-ok _)

  Returns-after_preferred :
      (handle : Option t.Handle) (this : ConnectingTcp t) (fb : ConnectingTcpFallback t)
      (m : RemotePolled t)
      → Returns m
      → Returns (after_preferred t handle this fb m)
  unfolding after_preferred
  Returns-after_preferred handle this fb (ok (ready s, r)) h = Returns-ok _
  Returns-after_preferred handle this fb (ok (pending, r)) h =
      Returns-after_delay handle (record this { preferred = r }) fb (t.poll_delay fb.delay)
  Returns-after_preferred handle this fb (err e) h =
      Returns-keep_preferred this _
        (Returns-remote_poll this.local_addr handle this.reuse_address fb.remote)
  Returns-after_preferred handle this fb panic h = Returns-panic
  Returns-after_preferred handle this fb out_of_fuel h = absurd (h.ne refl)

  Returns-poll_with :
      (handle : Option t.Handle) (this : ConnectingTcp t) (o : Option (ConnectingTcpFallback t))
      → Returns (poll_with t handle this o)
  unfolding poll_with
  Returns-poll_with handle this none =
      Returns-keep_preferred this _
        (Returns-remote_poll this.local_addr handle this.reuse_address this.preferred)
  Returns-poll_with handle this (some fb) =
      Returns-after_preferred handle this fb _
        (Returns-remote_poll this.local_addr handle this.reuse_address this.preferred)

  pub Returns-poll_tcp :
      (handle : Option t.Handle) (this : ConnectingTcp t) → Returns (poll t handle this)
  unfolding poll
  Returns-poll_tcp handle this = Returns-poll_with handle this this.fallback
