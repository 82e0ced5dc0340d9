-- ===== src/Http/Ares.antt =====
-- src/http/ares.rs: a resolver with a cache under a mutex. The clock, and the resolver of
-- c-ares, are parameters.
pub mod Cache
pub mod Polling
pub mod Sharing
use simple_http.Base.{
  ℕ, Bool, true, false, Option, none, some, List, [], ◌∷◌, ◌⊎◌, inl, inr, ltb, if◌then◌else◌,
  Outcome, ok, err, panic, ◌>>=◌, unwrap, map,
}
use simple_http.Base.Bytes.{Bytes, bytes_eq}
use simple_http.Io.{IoError, IoResult, other, Poll, pending, ready}
use simple_http.Http.Dns.{IpAddr, v4}

-- An entry of the cache: the addresses, and the instant of its insertion.
pub record Entry : Type 0 where
  pub vec : List IpAddr
  pub ttl : ℕ

-- The map of the cache, with one entry for a name.
abbrev pub Entries : Type 0
Entries = List (Bytes × Entry)

-- `ResolverCache`: the mutex is poisoned when a thread has panicked while holding it.
pub record ResolverCache : Type 0 where
  pub entries : Entries
  pub poisoned : Bool

-- `ResolverCache::default`
abbrev pub default : ResolverCache
default = record { entries = []; poisoned = false }

-- `HashMap::get`
unfoldable pub get : Bytes → Entries → Option Entry
get name [] = none
get name ((n, entry) ∷ entries) =
    let later = get name entries in if bytes_eq n name then some entry else later

-- `HashMap::insert`
unfoldable pub insert : Bytes → Entry → Entries → Entries
insert name entry [] = (name, entry) ∷ []
insert name entry ((n, old) ∷ entries) =
    let later = insert name entry entries in
    if bytes_eq n name then (n, entry) ∷ entries else (n, old) ∷ later

abbrev pub before_now : ℕ → Option Entry → Option (List IpAddr)
before_now now none = none
before_now now (some entry) = if ltb entry.ttl now then some entry.vec else none

-- `ResolverCache::lookup` at the time `now`
unfoldable pub lookup : ℕ → Bytes → ResolverCache → Option (List IpAddr)
lookup now name this = if this.poisoned then none else before_now now (get name this.entries)

-- `ResolverCache::add` at the time `now`
unfoldable pub add {ℓ} :
    {E : Type ℓ} → ℕ → Bytes → List IpAddr → ResolverCache → Outcome E ResolverCache
add now name addrs this =
    if this.poisoned
    then panic
    else ok (record this { entries = insert name (record { vec = addrs; ttl = now }) this.entries })

-- `c_ares_resolver`: a query, and its polls with an error's text or the IPv4 addresses found
pub record Ares : Type 1 where
  pub FutureResolver : Type 0
  -- `FutureResolver::new()`, of whose failure nothing is used
  pub new_resolver : Option FutureResolver
  pub AresFuture : Type 0
  pub query_a : FutureResolver → Bytes → AresFuture
  pub poll_query : AresFuture → Poll (Bytes ⊎ List ℕ) × AresFuture

module _ (a : Ares) where
  -- `CAresResolverFuture`; the cache that it shares is passed along.
  pub data CAresResolverFuture : Type 0 where
    from_resolver : a.AresFuture → Bytes → CAresResolverFuture
    from_cache : List IpAddr → CAresResolverFuture
    done : CAresResolverFuture

  abbrev pub Step : Type 0
  Step = Outcome IoError (Poll (IoResult (List IpAddr)) × CAresResolverFuture × ResolverCache)

  -- the arm of `poll` for a running query
  unfoldable pub after_query :
      ℕ → Bytes → ResolverCache → Poll (Bytes ⊎ List ℕ) × a.AresFuture → Step
  after_query now name cache (ready (inr vals), fut) = do
    cache' ← add now name (map v4 vals) cache
    ok (ready (inr (map v4 vals)), done, cache')
  after_query now name cache (ready (inl e), fut) =
      ok (ready (inl (record { kind = other; message = e })), done, cache)
  after_query now name cache (pending, fut) = ok (pending, from_resolver fut name, cache)

  -- `CAresResolverFuture::poll`
  unfoldable pub poll : ℕ → CAresResolverFuture → ResolverCache → Step
  unfolding after_query
  poll now (from_resolver fut name) cache = after_query now name cache (a.poll_query fut)
  poll now (from_cache addrs) cache = ok (ready (inr addrs), done, cache)
  poll now done cache = panic

  -- The cache is shared; this is what it holds when the resolver is used.
  pub record CAresResolverImpl : Type 0 where
    pub cache : ResolverCache
    pub resolver : a.FutureResolver

  -- `CAresResolverImpl::new`
  unfoldable pub new {ℓ} : {E : Type ℓ} → Outcome E CAresResolverImpl
  new = do resolver ← unwrap a.new_resolver; ok (record { cache = default; resolver = resolver })

  abbrev from_lookup : a.FutureResolver → Bytes → Option (List IpAddr) → CAresResolverFuture
  from_lookup resolver name none = from_resolver (a.query_a resolver name) name
  from_lookup resolver name (some values) = from_cache values

  -- `CAresResolverImpl::resolve` at the time `now`
  unfoldable pub resolve : ℕ → Bytes → CAresResolverImpl → CAresResolverFuture
  resolve now name this = from_lookup this.resolver name (lookup now name this.cache)
