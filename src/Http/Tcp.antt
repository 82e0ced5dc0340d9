-- ===== src/Http/Tcp.antt =====
-- src/http/mod.rs, the lower half: a connection to the first address that answers, with the
-- addresses of the other family as a fallback after a delay. Sockets and timers are parameters,
-- and each future carries the answers of its own polls.
pub mod Usable
pub mod Live
pub mod Polls
pub mod Progress
pub mod Takeover
pub mod Race
use simple_http.Base.{
  ℕ, Bool, true, false, Option, none, some, List, [], ◌∷◌, ◌⊎◌, inl, inr, if◌then◌else◌, Outcome,
  ok, err, panic, out_of_fuel, ◌>>=◌, unwrap,
}
use simple_http.Io.{IoError, IoResult, Poll, pending, ready}
use simple_http.Http.Dns.{IpAddr, v4, v6, SocketAddr, IpAddrs, split_by_preference, is_empty}

-- `net2::TcpBuilder`, `tokio_tcp`, `tokio_reactor::Handle` and `tokio_timer::Delay`
pub record TcpIo : Type 1 where
  pub Builder : Type 0
  pub new_v4 : Outcome IoError Builder
  pub new_v6 : Outcome IoError Builder
  pub set_reuse : Bool → Builder → Outcome IoError Builder
  pub bind : SocketAddr → Builder → Outcome IoError Builder
  pub Socket : Type 0
  pub to_tcp_stream : Builder → Outcome IoError Socket
  pub Handle : Type 0
  pub default_handle : Handle
  pub ConnectFuture : Type 0
  pub connect_std : Socket → SocketAddr → Handle → ConnectFuture
  pub TcpStream : Type 0
  pub poll_connect : ConnectFuture → Poll (IoResult TcpStream) × ConnectFuture
  pub Duration : Type 0
  pub Instant : Type 0
  pub Delay : Type 0
  pub delay_after : Instant → Duration → Delay
  -- `ready false` where the timer has failed
  pub poll_delay : Delay → Poll Bool × Delay
  -- `cfg!(windows)`
  pub windows : Bool

module _ (t : TcpIo) where
  open t use {ConnectFuture, TcpStream, Handle, Builder, Duration, Instant, Delay}

  abbrev any_address : SocketAddr → SocketAddr
  any_address addr = elim addr.ip [
    | v4 n ↦ record { ip = v4 0; port = 0 }
    | v6 n ↦ record { ip = v6 0; port = 0 }
  ]

  abbrev pub new_builder : IpAddr → Outcome IoError Builder
  new_builder (v4 n) = t.new_v4
  new_builder (v6 n) = t.new_v6

  abbrev pub bind_local : SocketAddr → Option IpAddr → Builder → Outcome IoError Builder
  bind_local addr (some local) builder = t.bind (record { ip = local; port = 0 }) builder
  bind_local addr none builder = if t.windows then t.bind (any_address addr) builder else ok builder

  abbrev handle_or_default : Option Handle → Handle
  handle_or_default (some handle) = handle
  handle_or_default none = t.default_handle

  unfoldable pub connect :
      SocketAddr → Option IpAddr → Option Handle → Bool → Outcome IoError ConnectFuture
  connect addr local_addr handle reuse_address = do
    builder ← new_builder addr.ip
    builder₁ ← if reuse_address then t.set_reuse reuse_address builder else ok builder
    builder₂ ← bind_local addr local_addr builder₁
    socket ← t.to_tcp_stream builder₂
    ok (t.connect_std socket addr (handle_or_default handle))

  pub record ConnectingTcpRemote : Type 0 where
    pub addrs : IpAddrs
    pub current : Option ConnectFuture

  pub record ConnectingTcpFallback : Type 0 where
    pub delay : Delay
    pub remote : ConnectingTcpRemote

  pub record ConnectingTcp : Type 0 where
    pub local_addr : Option IpAddr
    pub preferred : ConnectingTcpRemote
    pub fallback : Option ConnectingTcpFallback
    pub reuse_address : Bool

  abbrev pub remote_new : IpAddrs → ConnectingTcpRemote
  remote_new addrs = record { addrs = addrs; current = none }

  abbrev pub with_fallback : Option IpAddr → Bool → Delay → IpAddrs × IpAddrs → ConnectingTcp
  with_fallback local_addr reuse delay (preferred_addrs, fallback_addrs) = record {
    local_addr = local_addr;
    preferred = remote_new preferred_addrs;
    fallback =
        if is_empty fallback_addrs
        then none
        else some (record { delay = delay; remote = remote_new fallback_addrs });
    reuse_address = reuse;
  }

  -- `ConnectingTcp::new`; `now` is the time of the call.
  unfoldable pub new : Instant → Option IpAddr → IpAddrs → Option Duration → Bool → ConnectingTcp
  new now local_addr remote_addrs (some timeout) reuse =
      with_fallback local_addr reuse (t.delay_after now timeout) (split_by_preference remote_addrs)
  new now local_addr remote_addrs none reuse = record {
    local_addr = local_addr;
    preferred = remote_new remote_addrs;
    fallback = none;
    reuse_address = reuse;
  }

  -- What a poll gives. A remote that has failed is not used again.
  abbrev pub RemotePolled : Type 0
  RemotePolled = Outcome IoError (Poll TcpStream × ConnectingTcpRemote)

  -- What the loop does with an answer of the current attempt; `go` is the loop with its `err`.
  abbrev pub after_attempt :
      (Option IoError → RemotePolled)
      → IpAddrs
      → Poll (IoResult TcpStream) × ConnectFuture
      → RemotePolled
  after_attempt go addrs (pending, fut) = ok (pending, record { addrs = addrs; current = some fut })
  after_attempt go addrs (ready (inr stream), fut) =
      ok (ready stream, record { addrs = addrs; current = some fut })
  after_attempt go addrs (ready (inl e), fut) = go (some e)

  -- `Err(err.take().expect("missing connect error"))`
  abbrev pub give_up : Option IoError → RemotePolled
  give_up none = panic
  give_up (some e) = err e

  module _ (local_addr : Option IpAddr) (handle : Option Handle) (reuse : Bool) where
    -- The loop, from where it takes the next address.
    unfoldable pub try_next : IpAddrs → Option IoError → RemotePolled
    unfolding connect
    try_next [] last = give_up last
    try_next (addr ∷ addrs) last = do
      fut ← connect addr local_addr handle reuse
      after_attempt (try_next addrs) addrs (t.poll_connect fut)

    -- the start of the loop, by `self.current`
    unfoldable pub poll_current : IpAddrs → Option ConnectFuture → RemotePolled
    unfolding try_next
    poll_current addrs none = try_next addrs none
    poll_current addrs (some fut) = after_attempt (try_next addrs) addrs (t.poll_connect fut)

    -- `ConnectingTcpRemote::poll`
    unfoldable pub remote_poll : ConnectingTcpRemote → RemotePolled
    unfolding poll_current
    remote_poll this = poll_current this.addrs this.current

  abbrev pub TcpPolled : Type 0
  TcpPolled = Outcome IoError (Poll TcpStream × ConnectingTcp)

  abbrev pub keep_preferred : ConnectingTcp → Poll TcpStream × ConnectingTcpRemote → TcpPolled
  keep_preferred this (p, remote) = ok (p, record this { preferred = remote; fallback = none })

  -- the answer of the fallback, while the preferred attempt goes on
  unfoldable pub after_fallback : ConnectingTcp → Delay → RemotePolled → TcpPolled
  after_fallback this delay (ok (ready stream, remote)) =
      ok (ready stream, record this { preferred = remote; fallback = none })
  after_fallback this delay (ok (pending, remote)) =
      ok (pending, record this { fallback = some (record { delay = delay; remote = remote }) })
  after_fallback this delay (err e) = ok (pending, record this { fallback = none })
  after_fallback this delay panic = panic
  after_fallback this delay out_of_fuel = out_of_fuel

  unfoldable pub after_delay :
      Option Handle → ConnectingTcp → ConnectingTcpFallback → Poll Bool × Delay → TcpPolled
  unfolding after_fallback
  after_delay handle this fallback (ready true, delay) =
      after_fallback this delay
        (remote_poll this.local_addr handle this.reuse_address fallback.remote)
  after_delay handle this fallback (pending, delay) =
      ok (pending, record this { fallback = some (record fallback { delay = delay }) })
  after_delay handle this fallback (ready false, delay) =
      ok (pending, record this { fallback = none })

  -- the answer of the preferred attempt, while there is a fallback
  unfoldable pub after_preferred :
      Option Handle → ConnectingTcp → ConnectingTcpFallback → RemotePolled → TcpPolled
  unfolding after_delay
  after_preferred handle this fallback (ok (ready stream, remote)) =
      ok (ready stream, record this { preferred = remote; fallback = none })
  after_preferred handle this fallback (ok (pending, remote)) =
      after_delay handle (record this { preferred = remote }) fallback (t.poll_delay fallback.delay)
  after_preferred handle this fallback (err e) =
      remote_poll this.local_addr handle this.reuse_address fallback.remote >>= keep_preferred this
  after_preferred handle this fallback panic = panic
  after_preferred handle this fallback out_of_fuel = out_of_fuel

  -- by what `self.fallback.take()` gives
  unfoldable pub poll_with :
      Option Handle → ConnectingTcp → Option ConnectingTcpFallback → TcpPolled
  unfolding after_preferred remote_poll
  poll_with handle this none =
      remote_poll this.local_addr handle this.reuse_address this.preferred >>= keep_preferred this
  poll_with handle this (some fallback) =
      after_preferred handle this fallback
        (remote_poll this.local_addr handle this.reuse_address this.preferred)

  -- `ConnectingTcp::poll`
  unfoldable pub poll : Option Handle → ConnectingTcp → TcpPolled
  unfolding poll_with
  poll handle this = poll_with handle this this.fallback
