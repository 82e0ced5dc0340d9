-- ===== src/Http/Gai/Threadpool.antt =====
-- src/http/dns.rs: the resolver that looks names up on the threads of the runtime.
use simple_http.Base.{List}
use simple_http.Base.Bytes.{Bytes}
use simple_http.Io.{IoResult, Poll}
use simple_http.Http.Dns.{IpAddr, IpAddrs, Blocking, threadpool_poll}
use simple_http.Http.Connecting.{Resolve}
use simple_http.Http.Gai.{Name, name_new, as_str, Lookup, gai_addrs}

-- `TokioThreadpoolGaiResolver` holds nothing.
pub data TokioThreadpoolGaiResolver : Type 0 where
  resolver : TokioThreadpoolGaiResolver

abbrev pub new : TokioThreadpoolGaiResolver
new = resolver

-- `TokioThreadpoolGaiFuture`
pub record TokioThreadpoolGaiFuture : Type 0 where
  pub name : Name

-- `blocking` is `tokio_threadpool::blocking`, of a lookup that it may run or not.
module _ (lookup : Lookup) (blocking : IoResult IpAddrs → Blocking) where
  unfoldable pub resolve : TokioThreadpoolGaiResolver → Bytes → TokioThreadpoolGaiFuture
  unfolding name_new
  resolve this name = record { name = name_new name }

  unfoldable pub poll :
      TokioThreadpoolGaiFuture → Poll (IoResult (List IpAddr)) × TokioThreadpoolGaiFuture
  unfolding threadpool_poll
  poll this = (gai_addrs (threadpool_poll (blocking (lookup (as_str this.name) 0))), this)

  -- `TokioThreadpoolGaiResolver` as a resolver
  abbrev pub threadpool : Resolve
  threadpool = record {
    Resolver = TokioThreadpoolGaiResolver;
    Future = TokioThreadpoolGaiFuture;
    resolve = resolve;
    poll_future = poll;
  }
