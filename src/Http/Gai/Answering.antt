-- ===== src/Http/Gai/Answering.antt =====
-- That a lookup of src/http/dns.rs on the pool is answered, and with what.
use simple_http.Base.{ℕ, suc, List, [], ◌∷◌, inl, inr, ◌≡◌}
use simple_http.Base.Bytes.{Bytes}
use simple_http.Io.{IoError, IoResult, pending}
use simple_http.Http.Dns.{IpAddr, IpAddrs}
use simple_http.Http.Gai.{GaiBlocking, Lookup, Pool, blocking_poll, GaiResolver, execute}

-- What is documented of `oneshot::spawn`. Work that the executor takes is due: the handle is not
-- ready at a number of polls, and the one after them gives what the work gives.
pub record SpawnLaw (p : Pool) (lookup : Lookup) : Type 1 where
  pub Due : GaiBlocking → ℕ → p.SpawnHandle → Type 0
  pub taken :
      (this : GaiResolver p) (work : GaiBlocking)
      → ((e : p.Execute) → execute p this.executor e ≡ inr tt)
      → (rounds : ℕ) × Due work rounds (p.spawn work (execute p this.executor))
  pub waits :
      (work : GaiBlocking) (rounds : ℕ) (rx : p.SpawnHandle)
      → Due work (suc rounds) rx
      → (rx' : p.SpawnHandle) × (p.poll_handle rx ≡ (pending, rx')) × Due work rounds rx'
  pub finishes :
      (work : GaiBlocking) (rx : p.SpawnHandle)
      → Due work 0 rx
      → (rx' : p.SpawnHandle) × (p.poll_handle rx ≡ (blocking_poll lookup work, rx'))

-- What a resolver is to answer by the system's lookup: the addresses found, without their ports and
-- in their order, or the error.
pub data Found : IoResult IpAddrs → IoResult (List IpAddr) → Type 0 where
  nothing_found : {e : IoError} → Found (inl e) (inl e)
  no_address : Found (inr []) (inr [])
  address :
      (ip : IpAddr) (port : ℕ) {addrs : IpAddrs} {found : List IpAddr}
      → Found (inr addrs) (inr found)
      → Found (inr (record { ip = ip; port = port } ∷ addrs)) (inr (ip ∷ found))
