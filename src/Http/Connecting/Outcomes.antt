-- ===== src/Http/Connecting/Outcomes.antt =====
-- What src/http/mod.rs makes of a URL and of the answer of the resolver.
use simple_http.Base.{true, false, ◌≢◌, Option, none, some, [], inr, ◌≡◌, refl, err, panic, ◌>>=◌}
use simple_http.Base.Bytes.{Bytes, codes}
use simple_http.Uri.{HttpTypes}
use simple_http.Io.{invalid_input, ready}
use simple_http.Http.Dns.{IpAddr, IpAddrs, AddrText, try_parse}
use simple_http.Http.Tcp
use simple_http.Http.Tcp.{TcpIo, ConnectingTcp}
use simple_http.Http.Tcp.Polls.{poll-new_empty}
use simple_http.Http.Connecting.{
  Resolve, SocketIo, HttpConnector, HttpConnecting, lazy, resolving, poll, poll_loop, round,
  from_lazy, after_resolve, after_tcp, start_tcp,
}

module _ (h : HttpTypes) (t : TcpIo) (k : SocketIo t) (r : Resolve) (text : AddrText)
    (now : t.Instant) where
  -- The schemes that a connector takes: http, and any other while it does not enforce http.
  pub data TakesScheme (this : HttpConnector h t k r) (uri : h.Uri) : Type 0 where
    plain_http : h.scheme_part uri ≡ some (codes "http") → TakesScheme this uri
    any_scheme :
        (scheme : Bytes)
        → this.enforce_http ≡ false
        → h.scheme_part uri ≡ some scheme
        → TakesScheme this uri

  -- Why a connector refuses a URL, and what it says then: while it enforces http, every scheme but
  -- http; otherwise only that there is none; and a URL whose scheme is taken, but which has no host.
  pub data Refuses (this : HttpConnector h t k r) (uri : h.Uri) : Bytes → Type 0 where
    other_scheme :
        this.enforce_http ≡ true
        → h.scheme_part uri ≢ some (codes "http")
        → Refuses this uri (codes "invalid URL, scheme must be http")
    no_scheme :
        this.enforce_http ≡ false
        → h.scheme_part uri ≡ none
        → Refuses this uri (codes "invalid URL, missing scheme")
    no_host :
        TakesScheme this uri
        → h.host uri ≡ none
        → Refuses this uri (codes "invalid URL, missing domain")

  -- What a connector makes of a URL, as its first poll shows: the error of a refusal, of the kind
  -- for invalid input and with its text; or the lookup of the host.
  pub data Checked (this : HttpConnector h t k r) (uri : h.Uri) (c : HttpConnecting h t k r)
      : Type 0 where
    refused :
        (text_of : Bytes)
        → Refuses this uri text_of
        → poll h t k r text now c ≡ err (record { kind = invalid_input; message = text_of })
        → Checked this uri c
    taken :
        (host : Bytes)
        → TakesScheme this uri
        → h.host uri ≡ some host
        → c.state ≡ lazy this.resolver host this.local_address
        → Checked this uri c

  -- A host that is an address is not looked up: the poll goes on to connect to that address.
  pub poll-literal :
      (this : HttpConnecting h t k r) (resolver : r.Resolver) (host : Bytes) (local : Option IpAddr)
      {addrs : IpAddrs}
      → this.state ≡ lazy resolver host local
      → try_parse text host this.port ≡ some addrs
      → poll h t k r text now this
        ≡ Tcp.poll t this.handle
            (Tcp.new t now local addrs this.happy_eyeballs_timeout this.reuse_address)
          >>= after_tcp h t k r (start_tcp h t k r text now this local addrs)
  unfolding poll poll_loop round from_lazy
  poll-literal this resolver host local e p = simp (e, p) refl

  -- A resolver that answers with no address makes the poll panic.
  pub poll-no_address :
      (this : HttpConnecting h t k r) (fut fut' : r.Future) (local : Option IpAddr)
      → this.state ≡ resolving fut local
      → r.poll_future fut ≡ (ready (inr []), fut')
      → poll h t k r text now this ≡ panic
  unfolding poll poll_loop round after_resolve
  poll-no_address this fut fut' local e p =
      simp (e, p)
        (rw (poll-new_empty t this.handle now local this.happy_eyeballs_timeout this.reuse_address)
          refl)
