-- ===== src/Tests/Lookups.antt =====
-- Runs of the resolvers of src/http/dns.rs, and connections over them.
use simple_http.Base.{ℕ, zero, suc, none, some, [], ◌∷◌, ◌≡◌, refl, arith, inl, inr, ok, false}
use simple_http.Base.Bytes.{Bytes, codes}
use simple_http.Io.{IoResult, other, Poll, pending, ready}
use simple_http.Io.Drive.{drive}
use simple_http.Connect.{Destination}
use simple_http.Http.Dns.{
  v4, SocketAddr, IpAddrs, ran, no_pool, threadpool_poll, try_parse, split_by_preference, partition,
  is_empty,
}
use simple_http.Http.Tcp
use simple_http.Http.Tcp.{
  ConnectingTcp, remote_poll, poll_current, try_next, poll_with, after_preferred,
}
use simple_http.Http.Connecting
use simple_http.Http.Connecting.{
  HttpConnector, http_connector, new_with_resolver, keep_alive, connect_host, round, from_lazy,
  after_resolve, after_tcp,
}
use simple_http.Http.Connecting.Resolved.{Answers, at_once, after_wait, http_connector-Answers}
use simple_http.Http.Gai
use simple_http.Http.Gai.{Pool, GaiResolver, Lookup, gai, GaiBlocking, execute, resolve, ips}
use simple_http.Http.Gai.Threadpool
use simple_http.Tests.World.{http}
use simple_http.Tests.Connections.{tcp, sockets, texts, at80, uri_of}

abbrev zero_port : ℕ → SocketAddr
zero_port n = record { ip = v4 n; port = 0 }

-- Every host has the addresses 2 and 4.
abbrev lookup : Lookup
lookup host port = inr (zero_port 2 ∷ zero_port 4 ∷ [])

abbrev poll_spawned : ℕ × IoResult IpAddrs → Poll (IoResult IpAddrs) × (ℕ × IoResult IpAddrs)
poll_spawned (zero, r) = (ready r, (zero, r))
poll_spawned (suc n, r) = (pending, (n, r))

-- A pool that takes every task, and answers at the second poll.
abbrev pool : Pool
pool = record {
  Executor = ℕ;
  Execute = Bytes;
  Kind = ℕ;
  create = λ prefix size. size;
  execute = λ executor task. inr tt;
  SpawnHandle = ℕ × IoResult IpAddrs;
  spawn = λ work run. (1, lookup work.host 0);
  poll_handle = poll_spawned;
  poll_work = λ work. (ready (inr tt), work);
}

unfoldable resolver : GaiResolver pool
unfolding Gai.new
resolver = Gai.new pool 4

-- The handle holds the polls that it lets pass, and the answer.
abbrev Due : GaiBlocking → ℕ → ℕ × IoResult IpAddrs → Type 0
Due work rounds rx = rx ≡ (rounds, lookup work.host 0)

run-threadpool :
    Threadpool.poll lookup ran (Threadpool.resolve lookup ran Threadpool.new (codes "h"))
    ≡ (ready (inr (v4 2 ∷ v4 4 ∷ [])), Threadpool.resolve lookup ran Threadpool.new (codes "h"))
unfolding Threadpool.poll threadpool_poll
run-threadpool = refl

run-no_threadpool :
    (Threadpool.poll lookup
      (λ r. no_pool (codes "no pool"))
      (Threadpool.resolve lookup ran Threadpool.new (codes "h"))).0
    ≡ ready (inl (record { kind = other; message = codes "no pool" }))
unfolding Threadpool.poll threadpool_poll
run-no_threadpool = refl

abbrev target : Destination http
target = record { uri = uri_of (codes "http") (codes "h") }

abbrev connector : HttpConnector http tcp sockets (gai pool)
unfolding new_with_resolver
connector = new_with_resolver http tcp sockets (gai pool) resolver

abbrev first_next : ConnectingTcp tcp
first_next = record {
  local_addr = none;
  preferred = record { addrs = at80 (v4 4) ∷ []; current = some (at80 (v4 2), 0) };
  fallback = none;
  reuse_address = false;
}

first_answers :
    Tcp.poll tcp none (Tcp.new tcp 0 none (at80 (v4 2) ∷ at80 (v4 4) ∷ []) (some 300) false)
    ≡ ok (ready (at80 (v4 2)), first_next)
unfolding Tcp.poll Tcp.new split_by_preference partition is_empty remote_poll poll_current try_next
    poll_with Tcp.connect
first_answers = refl

answered : (host : Bytes) → Answers (gai pool) 1 (resolve pool resolver host) (ips (lookup host 0))
unfolding Gai.resolve Gai.poll
answered host =
    after_wait {fut' = record { rx = (0, lookup host 0) }} refl
      (at_once {fut' = record { rx = (0, lookup host 0) }} refl)

run-connector :
    (http_connector http tcp sockets (gai pool) texts 0 2 connector).connect target
    ≡ ok (at80 (v4 2), at80 (v4 2))
unfolding connector new_with_resolver resolver Gai.resolve Gai.poll Connecting.connect connect_host
    drive Connecting.poll Connecting.poll_loop round from_lazy after_resolve after_tcp try_parse
    Tcp.poll Tcp.new split_by_preference partition is_empty remote_poll poll_current try_next
    poll_with Tcp.connect
run-connector = refl

http_connector-Answers_example :
    (http_connector http tcp sockets (gai pool) texts 0 2 connector).connect target
    ≡ ok (at80 (v4 2), at80 (v4 2))
unfolding connector new_with_resolver
http_connector-Answers_example =
    http_connector-Answers http tcp sockets (gai pool) texts 0 connector target (codes "h") refl
      refl refl refl 1 (v4 2 ∷ v4 4 ∷ []) first_next (at80 (v4 2)) (at80 (v4 2)) (at80 (v4 2))
      (at80 (v4 2)) (answered (codes "h")) (omega arith) first_answers refl refl refl
