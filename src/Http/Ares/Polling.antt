-- ===== src/Http/Ares/Polling.antt =====
-- One lookup of src/http/ares.rs, over a cache of answers.
use simple_http.Base.{
  ℕ, false, some, List, [], ◌∷◌, map, ◌⊎◌, inl, inr, ◌≡◌, ◌≢◌, refl, sym, subst, arith, Bool-cases,
  Option-cases, ok, ltb,
}
use simple_http.Base.Bytes.{Bytes, bytes_eq, bytes_eq_iff}
use simple_http.Io.{IoError, IoResult, Poll, pending, ready}
use simple_http.Http.Dns.{IpAddr, v4}
use simple_http.Http.Ares.{
  Entry, Entries, ResolverCache, get, insert, lookup, add, Ares, CAresResolverFuture, from_resolver,
  from_cache, done, Step, after_query, poll, resolve, CAresResolverImpl,
}

-- What is documented of the queries: a future is one of the query for a name, and what it answers
-- is an answer for that name.
pub record QueryLaw (a : Ares) : Type 1 where
  pub Asks : a.AresFuture → Bytes → Type 0
  pub Answered : Bytes → List ℕ → Type 0
  pub begun : (resolver : a.FutureResolver) (name : Bytes) → Asks (a.query_a resolver name) name
  pub waits :
      (fut fut' : a.AresFuture) (name : Bytes)
      → Asks fut name
      → a.poll_query fut ≡ (pending, fut')
      → Asks fut' name
  pub answers :
      (fut fut' : a.AresFuture) (name : Bytes) (vals : List ℕ)
      → Asks fut name
      → a.poll_query fut ≡ (ready (inr vals), fut')
      → Answered name vals

module _ (a : Ares) (law : QueryLaw a) where
  -- The addresses are those of an answer for the name.
  pub record IsAnswer (name : Bytes) (addrs : List IpAddr) : Type 0 where
    pub vals : List ℕ
    pub given : law.Answered name vals
    pub same : addrs ≡ map v4 vals

  abbrev pub Backed : Bytes × CAresResolverFuture a → Type 0
  Backed (name, from_resolver fut n) = (n ≡ name) × law.Asks fut name
  Backed (name, from_cache addrs) = IsAnswer name addrs
  Backed (name, done) = Unit {0}

  abbrev pub Kept : Entries → Type 0
  Kept [] = Unit {0}
  Kept ((name, entry) ∷ entries) = IsAnswer name entry.vec × Kept entries

  get-IsAnswer :
      (name : Bytes) (entries : Entries) {entry : Entry}
      → Kept entries
      → get name entries ≡ some entry
      → IsAnswer name entry.vec
  unfolding get
  get-IsAnswer name [] k e = absurd cc
  get-IsAnswer name ((n, old) ∷ entries) {entry} k e = elim (Bool-cases (bytes_eq n name)) [
    | inl same ↦
        let found : old ≡ entry = ground (arith, rw same at e) in
        subst (λ x. IsAnswer name x.vec) found
          (subst (λ x. IsAnswer x old.vec) ((bytes_eq_iff n name).0 same) k.0)
    | inr other ↦ get-IsAnswer name entries {entry = entry} k.1 (rw other at e)
  ]

  insert-Kept :
      (name : Bytes) (entry : Entry) (entries : Entries)
      → IsAnswer name entry.vec
      → Kept entries
      → Kept (insert name entry entries)
  unfolding insert
  insert-Kept name entry [] i k = (i, tt)
  insert-Kept name entry ((n, old) ∷ entries) i k = elim (Bool-cases (bytes_eq n name)) [
    | inl same ↦
        rw same (subst (λ x. IsAnswer x entry.vec) (sym ((bytes_eq_iff n name).0 same)) i, k.1)
    | inr other ↦ rw other (k.0, insert-Kept name entry entries i k.1)
  ]

  pub resolve-Backed :
      (now : ℕ) (name : Bytes) (this : CAresResolverImpl a)
      → Kept this.cache.entries
      → Backed (name, resolve a now name this)
  unfolding resolve lookup
  resolve-Backed now name this k = elim (Bool-cases this.cache.poisoned) [
    | inl bad ↦ rw bad (refl, law.begun this.resolver name)
    | inr good ↦ rw good (elim (Option-cases (get name this.cache.entries)) [
      | inl missing ↦ rw missing (refl, law.begun this.resolver name)
      | inr (entry, found) ↦ rw found (elim (Bool-cases (ltb entry.ttl now)) [
        | inl past ↦ rw past (get-IsAnswer name this.cache.entries k found)
        | inr young ↦ rw young (refl, law.begun this.resolver name)
      ])
    ])
  ]

  -- What a poll gives; it does not panic.
  pub data PollResult (name : Bytes) (m : Step a) : Type 0 where
    unready :
        (fut' : CAresResolverFuture a) (cache' : ResolverCache)
        → m ≡ ok (pending, fut', cache')
        → PollResult name m
    answered :
        (addrs : List IpAddr) (cache' : ResolverCache)
        → m ≡ ok (ready (inr addrs), done, cache')
        → IsAnswer name addrs
        → PollResult name m
    failed :
        (e : IoError) (cache' : ResolverCache)
        → m ≡ ok (ready (inl e), done, cache')
        → PollResult name m

  -- A poll of a backed lookup, with what it leaves behind.
  pub data Polled (name : Bytes) (m : Step a) : Type 0 where
    gives :
        (p : Poll (IoResult (List IpAddr))) (fut' : CAresResolverFuture a) (cache' : ResolverCache)
        → m ≡ ok (p, fut', cache')
        → cache'.poisoned ≡ false
        → Kept cache'.entries
        → Backed (name, fut')
        → PollResult name m
        → Polled name m

  after_query-Polled :
      (now : ℕ) (name : Bytes) (cache : ResolverCache) (fut fut' : a.AresFuture)
      (p : Poll (Bytes ⊎ List ℕ))
      → cache.poisoned ≡ false
      → Kept cache.entries
      → law.Asks fut name
      → a.poll_query fut ≡ (p, fut')
      → Polled name (after_query a now name cache (p, fut'))
  unfolding after_query add
  after_query-Polled now name cache fut fut' pending h k asks e =
      gives _ _ _ refl h k (refl, law.waits fut fut' name asks e) (unready _ _ refl)
  after_query-Polled now name cache fut fut' (ready (inl x)) h k asks e =
      gives _ _ _ refl h k tt (failed _ _ refl)
  after_query-Polled now name cache fut fut' (ready (inr vals)) h k asks e =
      let answer : IsAnswer name (map v4 vals) = record {
        vals = vals;
        given = law.answers fut fut' name vals asks e;
        same = refl;
      } in
      rw h (
        gives _ _ _ refl refl (insert-Kept name _ cache.entries answer k) tt
          (answered _ _ refl answer))

  pub poll-Polled :
      (now : ℕ) (name : Bytes) (cache : ResolverCache) (fut : CAresResolverFuture a)
      → cache.poisoned ≡ false
      → Kept cache.entries
      → Backed (name, fut)
      → fut ≢ done
      → Polled name (poll a now fut cache)
  unfolding poll
  poll-Polled now name cache (from_resolver fut n) h k b live =
      rw b.0 (after_query-Polled now name cache fut _ _ h k b.1 refl)
  poll-Polled now name cache (from_cache addrs) h k b live =
      gives _ _ _ refl h k tt (answered _ _ refl b)
  poll-Polled now name cache done h k b live = absurd (live refl)

  pub poll-live :
      (now : ℕ) (fut : CAresResolverFuture a) (cache : ResolverCache)
      {r : Poll (IoResult (List IpAddr)) × CAresResolverFuture a × ResolverCache}
      → poll a now fut cache ≡ ok r
      → fut ≢ done
  unfolding poll
  poll-live now fut cache e d = absurd (ground (arith, rw d at e))
