-- ===== src/Http/Dns.antt =====
-- src/http/dns.rs: names, lists of addresses, and the futures of the resolvers. How a text is read
-- as an address is a parameter.
pub mod Preference
use simple_http.Base.{
  ℕ, Bool, true, false, not, Option, none, some, List, [], ◌∷◌, ◌⊎◌, inl, inr, if◌then◌else◌,
}
use mathlib.Core.Option
use simple_http.Base.Bytes.{Bytes}
use simple_http.Io.{IoError, IoResult, other, Poll, pending, ready}

-- An address is kept as its number of 32 or 128 bits.
pub data IpAddr : Type 0 where
  v4 v6 : ℕ → IpAddr

-- A socket address, with the flow and the scope of IPv6 at 0 as `try_parse` makes them.
pub record SocketAddr : Type 0 where
  pub ip : IpAddr
  pub port : ℕ

abbrev pub is_ipv6 : SocketAddr → Bool
is_ipv6 addr = elim addr.ip [ v4 n ↦ false | v6 n ↦ true ]

-- `str::parse::<Ipv4Addr>` and `str::parse::<Ipv6Addr>`
pub record AddrText : Type 0 where
  pub parse_v4 : Bytes → Option ℕ
  pub parse_v6 : Bytes → Option ℕ

-- `IpAddrs`: what its iterator has left.
abbrev pub IpAddrs : Type 0
IpAddrs = List SocketAddr

unfoldable pub try_parse : AddrText → Bytes → ℕ → Option IpAddrs
try_parse text host port = elim (text.parse_v4 host) [
  | some addr ↦ some (record { ip = v4 addr; port = port } ∷ [])
  | none ↦ elim (text.parse_v6 host) [
    | some addr ↦ some (record { ip = v6 addr; port = port } ∷ [])
    | none ↦ none
  ]
]

-- `a == b` on Booleans
abbrev pub same : Bool → Bool → Bool
same true b = b
same false b = not b

abbrev preferring_v6 : IpAddrs → Bool
preferring_v6 [] = false
preferring_v6 (a ∷ tail) = is_ipv6 a

-- `partition`, in the order of the iterator
unfoldable pub partition : (SocketAddr → Bool) → IpAddrs → IpAddrs × IpAddrs
partition test [] = ([], [])
partition test (a ∷ tail) =
    let (kept, others) = partition test tail in
    if test a then (a ∷ kept, others) else (kept, a ∷ others)

unfoldable pub split_by_preference : IpAddrs → IpAddrs × IpAddrs
split_by_preference addrs = partition (λ a. same (is_ipv6 a) (preferring_v6 addrs)) addrs

unfoldable pub is_empty : IpAddrs → Bool
is_empty [] = true
is_empty (a ∷ tail) = false

unfoldable pub next : IpAddrs → Option SocketAddr × IpAddrs
next [] = (none, [])
next (a ∷ tail) = (some a, tail)

-- `GaiAddrs::next`
unfoldable pub gai_next : IpAddrs → Option IpAddr × IpAddrs
gai_next addrs = let (found, addrs') = next addrs in (Option.map (λ sa. sa.ip) found, addrs')

-- `tokio_threadpool::blocking` answers with an error of its own, or lets the lookup run.
pub data Blocking : Type 0 where
  not_ready : Blocking
  ran : IoResult IpAddrs → Blocking
  no_pool : Bytes → Blocking

-- `TokioThreadpoolGaiFuture::poll`, by what `blocking` has answered for the name at port 0
unfoldable pub threadpool_poll : Blocking → Poll (IoResult IpAddrs)
threadpool_poll (ran (inr addrs)) = ready (inr addrs)
threadpool_poll (ran (inl e)) = ready (inl e)
threadpool_poll not_ready = pending
threadpool_poll (no_pool message) = ready (inl (record { kind = other; message = message }))
