-- ===== src/Http/Tcp/Usable.antt =====
-- That a remote of src/http/mod.rs with an attempt or an address left can be polled.
use simple_http.Base.{
  Bool, true, false, Option, none, some, [], ◌∷◌, ◌≡◌, inl, inr, if◌then◌else◌, Outcome, ok, err,
  ◌>>=◌, refl,
}
use simple_http.Io.{IoError, IoResult, Poll, pending, ready}
use simple_http.Http.Dns.{IpAddr, v4, v6, SocketAddr, IpAddrs}
use simple_http.Http.Tcp.{
  TcpIo, connect, ConnectingTcpRemote, RemotePolled, after_attempt, new_builder, bind_local,
  try_next, poll_current, remote_poll,
}

-- A call has answered with `Ok` or `Err`.
pub data Answers {A : Type 0} (m : Outcome IoError A) : Type 0 where
  answers_ok : (a : A) → m ≡ ok a → Answers m
  answers_err : (e : IoError) → m ≡ err e → Answers m

-- What is documented of the sockets: every call answers.
pub record TcpLaw (t : TcpIo) : Type 0 where
  pub new_v4_answers : Answers t.new_v4
  pub new_v6_answers : Answers t.new_v6
  pub set_reuse_answers : (b : Bool) (builder : t.Builder) → Answers (t.set_reuse b builder)
  pub bind_answers : (a : SocketAddr) (builder : t.Builder) → Answers (t.bind a builder)
  pub stream_answers : (builder : t.Builder) → Answers (t.to_tcp_stream builder)

pub Answers-bind :
    {A B : Type 0} (m : Outcome IoError A) (f : A → Outcome IoError B)
    → Answers m
    → ((a : A) → Answers (f a))
    → Answers (m >>= f)
Answers-bind m f (answers_ok a e) h = rw e (h a)
Answers-bind m f (answers_err x e) h = rw e (answers_err x refl)

Answers-if :
    {A : Type 0} (b : Bool) {m n : Outcome IoError A}
    → Answers m
    → Answers n
    → Answers (if b then m else n)
Answers-if true p q = p
Answers-if false p q = q

-- A remote that has an attempt or an address left.
pub data Usable {t : TcpIo} (r : ConnectingTcpRemote t) : Type 0 where
  attempting : (fut : t.ConnectFuture) → r.current ≡ some fut → Usable r
  untried : (a : SocketAddr) (tail : IpAddrs) → r.addrs ≡ a ∷ tail → Usable r

-- A poll gives an error, or goes on with a remote that can be polled again.
pub data RemoteResult {t : TcpIo} (m : RemotePolled t) : Type 0 where
  goes_on :
      (p : Poll t.TcpStream) (r : ConnectingTcpRemote t) → m ≡ ok (p, r) → Usable r → RemoteResult m
  remote_fails : (e : IoError) → m ≡ err e → RemoteResult m

module _ (t : TcpIo) (law : TcpLaw t) where
  Answers-new_builder : (ip : IpAddr) → Answers (new_builder t ip)
  Answers-new_builder (v4 n) = law.new_v4_answers
  Answers-new_builder (v6 n) = law.new_v6_answers

  Answers-bind_local :
      (addr : SocketAddr) (local : Option IpAddr) (b : t.Builder)
      → Answers (bind_local t addr local b)
  Answers-bind_local addr (some ip) b = law.bind_answers _ b
  Answers-bind_local addr none b = Answers-if t.windows (law.bind_answers _ b) (answers_ok b refl)

  pub Answers-connect :
      (addr : SocketAddr) (local : Option IpAddr) (handle : Option t.Handle) (reuse : Bool)
      → Answers (connect t addr local handle reuse)
  unfolding connect
  Answers-connect addr local handle reuse = Answers-bind _ _ (Answers-new_builder addr.ip) (λ b.
      Answers-bind _ _ (Answers-if reuse (law.set_reuse_answers reuse b) (answers_ok b refl)) (λ b₁.
        Answers-bind _ _ (Answers-bind_local addr local b₁)
          (λ b₂. Answers-bind _ _ (law.stream_answers b₂) (λ socket. answers_ok _ refl))))

  after_attempt-RemoteResult :
      (go : Option IoError → RemotePolled t) (addrs : IpAddrs)
      (p : Poll (IoResult t.TcpStream) × t.ConnectFuture)
      → ((e : IoError) → RemoteResult (go (some e)))
      → RemoteResult (after_attempt t go addrs p)
  after_attempt-RemoteResult go addrs (pending, fut) h = goes_on _ _ refl (attempting fut refl)
  after_attempt-RemoteResult go addrs (ready (inr s), fut) h =
      goes_on _ _ refl (attempting fut refl)
  after_attempt-RemoteResult go addrs (ready (inl e), fut) h = h e

  module _ (local : Option IpAddr) (handle : Option t.Handle) (reuse : Bool) where
    try_next-attempt :
        (a : SocketAddr) (tail : IpAddrs) (last : Option IoError)
        → ((e : IoError) → RemoteResult (try_next t local handle reuse tail (some e)))
        → RemoteResult (try_next t local handle reuse (a ∷ tail) last)
    unfolding try_next
    try_next-attempt a tail last ih = elim (Answers-connect a local handle reuse) [
      | answers_ok fut h ↦ rw h (
          after_attempt-RemoteResult (try_next t local handle reuse tail) tail (t.poll_connect fut)
            ih)
      | answers_err e h ↦ rw h (remote_fails e refl)
    ]

    try_next-failed :
        (addrs : IpAddrs) (e : IoError)
        → RemoteResult (try_next t local handle reuse addrs (some e))
    unfolding try_next
    try_next-failed [] e = remote_fails e refl
    try_next-failed (a ∷ tail) e = try_next-attempt a tail (some e) (try_next-failed tail)

    poll_current-attempt :
        (addrs : IpAddrs) (fut : t.ConnectFuture)
        → RemoteResult (poll_current t local handle reuse addrs (some fut))
    unfolding poll_current
    poll_current-attempt addrs fut =
        after_attempt-RemoteResult (try_next t local handle reuse addrs) addrs (t.poll_connect fut)
          (try_next-failed addrs)

    poll_current-untried :
        (a : SocketAddr) (tail : IpAddrs) (current : Option t.ConnectFuture)
        → RemoteResult (poll_current t local handle reuse (a ∷ tail) current)
    unfolding poll_current
    poll_current-untried a tail none = try_next-attempt a tail none (try_next-failed tail)
    poll_current-untried a tail (some fut) = poll_current-attempt (a ∷ tail) fut

    pub remote_poll-RemoteResult :
        (r : ConnectingTcpRemote t) → Usable r → RemoteResult (remote_poll t local handle reuse r)
    unfolding remote_poll
    remote_poll-RemoteResult r (attempting fut e) = simp e (poll_current-attempt r.addrs fut)
    remote_poll-RemoteResult r (untried a tail e) = simp e (poll_current-untried a tail r.current)
