-- ===== src/Http/Gai.antt =====
-- src/http/dns.rs: the resolver that looks names up on a pool of threads. The pool and the system's
-- lookup are parameters.
pub mod Answering
pub mod Threadpool
use simple_http.Base.{ℕ, List, map, ◌⊎◌, inl, inr}
use simple_http.Base.Bytes.{Bytes, codes}
use simple_http.Io.{IoResult, Poll, pending, ready}
use simple_http.Http.Dns.{IpAddr, IpAddrs}
use simple_http.Http.Connecting.{Resolve}

-- `Name`
pub record Name : Type 0 where
  pub host : Bytes

unfoldable pub name_new : Bytes → Name
name_new host = record { host = host }

abbrev pub as_str : Name → Bytes
as_str this = this.host

-- `GaiBlocking`: the lookup of a host, done when it is polled
pub record GaiBlocking : Type 0 where
  pub host : Bytes

-- `(host, port).to_socket_addrs()`
abbrev pub Lookup : Type 0
Lookup = Bytes → ℕ → IoResult IpAddrs

abbrev pub answered : IoResult IpAddrs → Poll (IoResult IpAddrs)
answered r = ready r

-- `GaiBlocking::poll`
unfoldable pub blocking_poll : Lookup → GaiBlocking → Poll (IoResult IpAddrs)
blocking_poll lookup this = answered (lookup this.host 0)

-- `GaiTask`
pub record GaiTask (Execute : Type 0) : Type 0 where
  pub work : Execute

-- The pool: `futures_cpupool`, the trait `Executor`, and `oneshot::spawn`, which hands the work to
-- the executor that it is given. A refusal has a kind and gives the work back.
pub record Pool : Type 1 where
  pub Executor : Type 0
  pub Execute : Type 0
  pub Kind : Type 0
  -- `CpuPoolBuilder::new().name_prefix(..).pool_size(..).create()`
  pub create : Bytes → ℕ → Executor
  pub execute : Executor → GaiTask Execute → (Kind × GaiTask Execute) ⊎ Unit {0}
  pub SpawnHandle : Type 0
  pub spawn : GaiBlocking → (Execute → (Kind × Execute) ⊎ Unit {0}) → SpawnHandle
  pub poll_handle : SpawnHandle → Poll (IoResult IpAddrs) × SpawnHandle
  pub poll_work : Execute → Poll (Unit {0} ⊎ Unit {0}) × Execute

-- the addresses that the iterator `GaiAddrs` gives
abbrev pub ips : IoResult IpAddrs → IoResult (List IpAddr)
ips (inl e) = inl e
ips (inr addrs) = inr (map (λ sa. sa.ip) addrs)

-- `try_ready!`, and the iterator made of an answer
abbrev pub gai_addrs : Poll (IoResult IpAddrs) → Poll (IoResult (List IpAddr))
gai_addrs pending = pending
gai_addrs (ready r) = ready (ips r)

module _ (p : Pool) where
  -- `GaiResolver`, with its `GaiExecutor`
  pub record GaiResolver : Type 0 where
    pub executor : p.Executor

  unfoldable pub new_with_executor : p.Executor → GaiResolver
  new_with_executor executor = record { executor = executor }

  unfoldable pub new : ℕ → GaiResolver
  unfolding new_with_executor
  new threads = new_with_executor (p.create (codes "hyper-dns") threads)

  abbrev pub give_back : (p.Kind × GaiTask p.Execute) ⊎ Unit {0} → (p.Kind × p.Execute) ⊎ Unit {0}
  give_back (inl (kind, task)) = inl (kind, task.work)
  give_back (inr done) = inr done

  -- `GaiExecutor::execute`
  unfoldable pub execute : p.Executor → p.Execute → (p.Kind × p.Execute) ⊎ Unit {0}
  execute executor future = give_back (p.execute executor (record { work = future }))

  -- `GaiTask::poll`
  unfoldable pub task_poll : GaiTask p.Execute → Poll (Unit {0} ⊎ Unit {0}) × GaiTask p.Execute
  task_poll this = let (r, work) = p.poll_work this.work in (r, record { work = work })

  -- `GaiFuture`
  pub record GaiFuture : Type 0 where
    pub rx : p.SpawnHandle

  unfoldable pub resolve : GaiResolver → Bytes → GaiFuture
  unfolding execute
  resolve this name = record { rx = p.spawn (record { host = name }) (execute this.executor) }

  -- `GaiFuture::poll`, with the iterator run to its end
  unfoldable pub poll : GaiFuture → Poll (IoResult (List IpAddr)) × GaiFuture
  poll this = let (r, rx) = p.poll_handle this.rx in (gai_addrs r, record { rx = rx })

  -- `GaiResolver` as a resolver
  abbrev pub gai : Resolve
  gai = record { Resolver = GaiResolver; Future = GaiFuture; resolve = resolve; poll_future = poll }
