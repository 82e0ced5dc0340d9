-- ===== src/Http/Tcp/Race.antt =====
-- How src/http/mod.rs gets past a family of addresses that does not answer.
use simple_http.Base.{ℕ, zero, suc, ◌+◌, ◌<◌, Bool, true, Option, some, ◌∷◌, ◌≡◌, refl, arith, ok}
use simple_http.Io.{pending, ready}
use simple_http.Io.Drive.{drive}
use simple_http.Http.Dns.{IpAddr, SocketAddr, IpAddrs, split_by_preference, is_empty}
use simple_http.Http.Tcp.{
  TcpIo, ConnectingTcpRemote, ConnectingTcp, remote_new, new, remote_poll, after_fallback,
  after_delay, after_preferred, poll_with, poll,
}

-- A timer that has elapsed has elapsed when it is polled again.
pub record DelayLaw (t : TcpIo) : Type 0 where
  pub stays :
      (delay delay' : t.Delay)
      → t.poll_delay delay ≡ (ready true, delay')
      → (delay'' : t.Delay) × (t.poll_delay delay' ≡ (ready true, delay''))

module _ (t : TcpIo) where
  -- The timer is not ready so many times, and has then elapsed.
  pub data Elapses : ℕ → t.Delay → Type 0 where
    elapsed :
        (delay' : t.Delay) {delay : t.Delay}
        → t.poll_delay delay ≡ (ready true, delay')
        → Elapses 0 delay
    runs :
        (delay' : t.Delay) {delay : t.Delay} {rounds : ℕ}
        → t.poll_delay delay ≡ (pending, delay')
        → Elapses rounds delay'
        → Elapses (suc rounds) delay

  module _ (local : Option IpAddr) (handle : Option t.Handle) (reuse : Bool) where
    -- The attempts on a family give no answer at so many polls.
    pub data Hangs : ℕ → ConnectingTcpRemote t → Type 0 where
      no_more : {remote : ConnectingTcpRemote t} → Hangs 0 remote
      hangs :
          (remote' : ConnectingTcpRemote t) {remote : ConnectingTcpRemote t} {rounds : ℕ}
          → remote_poll t local handle reuse remote ≡ ok (pending, remote')
          → Hangs rounds remote'
          → Hangs (suc rounds) remote

    -- The attempts on a family give no answer at so many polls, and then the stream.
    pub data Accepts (stream : t.TcpStream) : ℕ → ConnectingTcpRemote t → Type 0 where
      accepts :
          (remote' : ConnectingTcpRemote t) {remote : ConnectingTcpRemote t}
          → remote_poll t local handle reuse remote ≡ ok (ready stream, remote')
          → Accepts stream 0 remote
      delays :
          (remote' : ConnectingTcpRemote t) {remote : ConnectingTcpRemote t} {rounds : ℕ}
          → remote_poll t local handle reuse remote ≡ ok (pending, remote')
          → Accepts stream rounds remote'
          → Accepts stream (suc rounds) remote

    abbrev pub racing : ConnectingTcpRemote t → t.Delay → ConnectingTcpRemote t → ConnectingTcp t
    racing preferred delay remote = record {
      local_addr = local;
      preferred = preferred;
      fallback = some (record { delay = delay; remote = remote });
      reuse_address = reuse;
    }

    module _ (law : DelayLaw t) (stream : t.TcpStream) where
      -- Once the timer has elapsed, both families are polled.
      drive-both :
          (polls : ℕ) {rounds waiting : ℕ} {preferred remote : ConnectingTcpRemote t}
          (delay delay' : t.Delay)
          → Hangs waiting preferred
          → t.poll_delay delay ≡ (ready true, delay')
          → Accepts stream rounds remote
          → rounds < waiting
          → rounds < polls
          → drive polls (poll t handle) (racing preferred delay remote) ≡ ok stream
      unfolding drive poll poll_with after_preferred after_delay after_fallback
      drive-both (suc polls) delay delay' (hangs r e more) d (accepts r' a) lt le =
          rw e (rw d (rw a refl))
      drive-both (suc polls) delay delay' (hangs r e more) d (delays r' a later) lt le =
          let (delay'', d') = law.stays delay delay' d in
          rw e (
            rw d (rw a (drive-both polls delay' delay'' more d' later (omega arith) (omega arith))))
      drive-both zero delay delay' h d a lt le = absurd (omega arith)
      drive-both polls delay delay' no_more d a lt le = absurd (omega arith)

      drive-racing :
          (polls : ℕ) {runs_for rounds waiting : ℕ} {preferred remote : ConnectingTcpRemote t}
          {delay : t.Delay}
          → Hangs waiting preferred
          → Elapses runs_for delay
          → Accepts stream rounds remote
          → runs_for + rounds < waiting
          → runs_for + rounds < polls
          → drive polls (poll t handle) (racing preferred delay remote) ≡ ok stream
      unfolding drive poll poll_with after_preferred after_delay
      drive-racing polls {delay = delay} h (elapsed delay' d) a lt le =
          drive-both polls delay delay' h d a (omega arith) (omega arith)
      drive-racing (suc polls) (hangs r e more) (runs delay' d later) a lt le =
          rw e (rw d (drive-racing polls more later a (omega arith) (omega arith)))
      drive-racing zero h d a lt le = absurd (omega arith)
      drive-racing polls no_more d a lt le = absurd (omega arith)

      -- A preferred family that does not answer does not hold up the connection: where its
      -- addresses give no answer, the addresses of the other family are tried from the poll on at
      -- which the delay has elapsed, and the stream of the first that accepts is the connection,
      -- as many polls later as that takes.
      pub drive-new_race :
          (now : t.Instant) (timeout : t.Duration) (addrs preferred after : IpAddrs)
          (b : SocketAddr) {runs_for rounds waiting : ℕ} (polls : ℕ)
          → split_by_preference addrs ≡ (preferred, b ∷ after)
          → Hangs waiting (remote_new t preferred)
          → Elapses runs_for (t.delay_after now timeout)
          → Accepts stream rounds (remote_new t (b ∷ after))
          → runs_for + rounds < waiting
          → runs_for + rounds < polls
          → drive polls (poll t handle) (new t now local addrs (some timeout) reuse) ≡ ok stream
      unfolding new is_empty
      drive-new_race now timeout addrs preferred after b polls s h d a lt le =
          rw s (drive-racing polls h d a lt le)
