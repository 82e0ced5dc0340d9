-- ===== src/Http/Connecting/Progress.antt =====
-- That the loop of `HttpConnecting::poll` in src/http/mod.rs is left after three rounds.
use simple_http.Base.{
  ℕ, suc, Bool, Option, none, some, List, inl, inr, ◌≡◌, refl, Returns, Returns-err, Returns-ok,
  Returns-bind, Returns-unwrap,
}
use simple_http.Base.Bytes.{Bytes}
use simple_http.Uri.{HttpTypes}
use simple_http.Io.{IoResult, Poll, pending, ready}
use simple_http.Http.Dns.{IpAddr, IpAddrs, AddrText, try_parse}
use simple_http.Http.Tcp.{TcpIo, ConnectingTcp}
use simple_http.Http.Tcp.Usable.{Answers, TcpLaw}
use simple_http.Http.Tcp.Progress.{Answers-Returns, Returns-poll_tcp}
use simple_http.Http.Connecting.{
  Resolve, SocketIo, HttpConnecting, State, lazy, resolving, connecting, error, keep_alive, poll,
  poll_loop, round, from_lazy, after_resolve, after_tcp,
}

-- What is documented of a connected socket: every call answers.
pub record SocketLaw {t : TcpIo} (k : SocketIo t) : Type 0 where
  pub keepalive_answers : (d : t.Duration) (s : t.TcpStream) → Answers (k.set_keepalive d s)
  pub nodelay_answers : (b : Bool) (s : t.TcpStream) → Answers (k.set_nodelay b s)
  pub peer_answers : (s : t.TcpStream) → Answers (k.peer_addr s)

module _ (h : HttpTypes) (t : TcpIo) (law : TcpLaw t) (k : SocketIo t) (socket : SocketLaw k)
    (r : Resolve) (text : AddrText) (now : t.Instant) where
  Returns-keep_alive :
      (timeout : Option t.Duration) (s : t.TcpStream) → Returns (keep_alive h t k r timeout s)
  Returns-keep_alive none s = Returns-ok s
  Returns-keep_alive (some d) s = Answers-Returns (socket.keepalive_answers d s)

  Returns-after_tcp :
      (this : HttpConnecting h t k r) (p : Poll t.TcpStream × ConnectingTcp t)
      → Returns (after_tcp h t k r this p)
  unfolding after_tcp
  Returns-after_tcp this (pending, c) = Returns-ok _
  Returns-after_tcp this (ready s, c) =
      Returns-bind _ _ (Returns-keep_alive this.keep_alive_timeout s) (λ s₁.
        Returns-bind _ _ (Answers-Returns (socket.nodelay_answers this.nodelay s₁)) (λ s₂.
          Returns-bind _ _ (Answers-Returns (socket.peer_answers s₂)) (λ addr. Returns-ok _)))

  Returns-connecting :
      (fuel : ℕ) (this : HttpConnecting h t k r) (c : ConnectingTcp t)
      → this.state ≡ connecting c
      → Returns (poll_loop h t k r text now (suc fuel) this)
  unfolding poll_loop round
  Returns-connecting fuel this c e =
      simp e (Returns-bind _ _ (Returns-poll_tcp t law this.handle c) (Returns-after_tcp this))

  Returns-after_resolve :
      (fuel : ℕ) (this : HttpConnecting h t k r) (local : Option IpAddr)
      (p : Poll (IoResult (List IpAddr)) × r.Future)
      → Returns
          (after_resolve h t k r text now (poll_loop h t k r text now (suc fuel)) this local p)
  unfolding after_resolve
  Returns-after_resolve fuel this local (pending, fut) = Returns-ok _
  Returns-after_resolve fuel this local (ready (inl e), fut) = Returns-err e
  Returns-after_resolve fuel this local (ready (inr ips), fut) = Returns-connecting fuel _ _ refl

  Returns-resolving :
      (fuel : ℕ) (this : HttpConnecting h t k r) (fut : r.Future) (local : Option IpAddr)
      → this.state ≡ resolving fut local
      → Returns (poll_loop h t k r text now (suc (suc fuel)) this)
  unfolding poll_loop round
  Returns-resolving fuel this fut local e =
      simp e (Returns-after_resolve fuel this local (r.poll_future fut))

  Returns-from_lazy :
      (fuel : ℕ) (this : HttpConnecting h t k r) (resolver : r.Resolver) (host : Bytes)
      (local : Option IpAddr) (o : Option IpAddrs)
      → Returns (
          from_lazy h t k r text now
            (poll_loop h t k r text now (suc (suc fuel)))
            this
            resolver
            host
            local
            o)
  unfolding from_lazy
  Returns-from_lazy fuel this resolver host local none = Returns-resolving fuel _ _ local refl
  Returns-from_lazy fuel this resolver host local (some addrs) =
      Returns-connecting (suc fuel) _ _ refl

  Returns-state :
      (this : HttpConnecting h t k r) (state : State h t k r)
      → this.state ≡ state
      → Returns (poll_loop h t k r text now 3 this)
  unfolding poll_loop round
  Returns-state this (lazy resolver host local) e =
      simp e (Returns-from_lazy 0 this resolver host local (try_parse text host this.port))
  Returns-state this (resolving fut local) e = Returns-resolving 1 this fut local e
  Returns-state this (connecting c) e = Returns-connecting 2 this c e
  Returns-state this (error o) e = simp e (Returns-bind _ _ (Returns-unwrap o) (λ x. Returns-err x))

  -- A poll of the connecting future ends within three rounds of its loop, in every state.
  pub Returns-poll_http : (this : HttpConnecting h t k r) → Returns (poll h t k r text now this)
  unfolding poll
  Returns-poll_http this = Returns-state this this.state refl
