-- ===== src/Http/Ares/Cache.antt =====
-- What the cache of src/http/ares.rs gives back, and when.
use simple_http.Base.{
  ℕ, ◌<◌, false, none, some, List, [], ◌∷◌, inl, inr, ◌≡◌, refl, arith, Bool-cases, ok, map, lt→ltb,
}
use simple_http.Base.Bytes.{Bytes, bytes_eq, bytes_eq_refl, bytes_eq_iff}
use simple_http.Io.{IoError, ready}
use simple_http.Http.Dns.{IpAddr, v4}
use simple_http.Http.Ares.{
  Entry, Entries, ResolverCache, get, insert, lookup, add, Ares, from_resolver, done, after_query,
  poll, resolve,
}

get-insert :
    (name : Bytes) (entry : Entry) (entries : Entries)
    → get name (insert name entry entries) ≡ some entry
unfolding get insert
get-insert name entry [] = rw bytes_eq_refl refl
get-insert name entry ((n, old) ∷ entries) = elim (Bool-cases (bytes_eq n name)) [
  | inl e ↦ rw e (rw e refl)
  | inr e ↦ rw e (rw e (get-insert name entry entries))
]

get-insert_other :
    (name asked : Bytes) (entry : Entry) (entries : Entries)
    → bytes_eq name asked ≡ false
    → get asked (insert name entry entries) ≡ get asked entries
unfolding get insert
get-insert_other name asked entry [] h = rw h refl
get-insert_other name asked entry ((n, old) ∷ entries) h =
    ground (arith, get-insert_other name asked entry entries, bytes_eq_iff n name)

lookup-added :
    (now later : ℕ) (name : Bytes) (addrs : List IpAddr) (cache : ResolverCache)
    → cache.poisoned ≡ false
    → now < later
    → (cache' : ResolverCache) × (add {E = IoError} now name addrs cache ≡ ok cache')
      × (lookup later name cache' ≡ some addrs)
unfolding add lookup
lookup-added now later name addrs cache h l = (
  record cache { entries = insert name (record { vec = addrs; ttl = now }) cache.entries },
  rw h refl,
  rw h (rw get-insert (rw (lt→ltb now later l) refl)),
)

-- What was added for a name is found at every later instant, for ever, and is not found in the
-- instant itself. The other names are found as before.
pub lookup-add :
    (now later : ℕ) (name asked : Bytes) (addrs : List IpAddr) (cache : ResolverCache)
    → cache.poisoned ≡ false
    → now < later
    → bytes_eq name asked ≡ false
    → (cache' : ResolverCache) × (add {E = IoError} now name addrs cache ≡ ok cache')
      × (lookup later name cache' ≡ some addrs)
      × (lookup now name cache' ≡ none)
      × (lookup later asked cache' ≡ lookup later asked cache)
unfolding add lookup
lookup-add now later name asked addrs cache h l d =
    let entry : Entry = record { vec = addrs; ttl = now } in
    (
      record cache { entries = insert name entry cache.entries },
      rw h refl,
      rw h (rw get-insert (rw (lt→ltb now later l) refl)),
      rw h (rw get-insert (ground arith)),
      rw h (rw (get-insert_other name asked entry cache.entries d) refl),
    )

-- A query that has answered is not repeated later: from any later instant on, a lookup of the name
-- gives a future that is ready with the same addresses, and leaves the cache alone.
pub poll-resolve :
    (a : Ares) (now later : ℕ) (fut fut' : a.AresFuture) (name : Bytes) (cache : ResolverCache)
    (vals : List ℕ) (resolver : a.FutureResolver)
    → cache.poisoned ≡ false
    → a.poll_query fut ≡ (ready (inr vals), fut')
    → now < later
    → (cache' : ResolverCache) × (poll a now (from_resolver fut name) cache
        ≡ ok (ready (inr (map v4 vals)), done, cache'))
      × (poll a later (resolve a later name (record { cache = cache'; resolver = resolver })) cache'
          ≡ ok (ready (inr (map v4 vals)), done, cache'))
unfolding poll resolve after_query
poll-resolve a now later fut fut' name cache vals resolver h q l =
    let (cache', e, found) = lookup-added now later name (map v4 vals) cache h l in
    (cache', rw q (rw e refl), rw found refl)
