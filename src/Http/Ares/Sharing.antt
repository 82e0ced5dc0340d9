-- ===== src/Http/Ares/Sharing.antt =====
-- Any number of lookups of src/http/ares.rs that share one cache, polled in any order.
use simple_http.Base.{
  ℕ, false, List, [], ◌∷◌, ◌++◌, inl, inr, ◌≡◌, ◌≢◌, refl, sym, subst, arith, Option-cases, ok,
}
use simple_http.Base.Bytes.{Bytes}
use simple_http.Io.{IoError, IoResult, Poll}
use simple_http.Http.Dns.{IpAddr}
use simple_http.Http.Ares.{
  ResolverCache, Ares, CAresResolverFuture, done, poll, resolve, CAresResolverImpl, new, default,
}
use simple_http.Http.Ares.Polling.{
  QueryLaw, Backed, Kept, resolve-Backed, PollResult, gives, poll-Polled, poll-live,
}

module _ (a : Ares) where
  -- The cache and the resolver, and the lookups that run, each with the name that was asked for.
  pub record Shared : Type 0 where
    pub cache : ResolverCache
    pub resolver : a.FutureResolver
    pub running : List (Bytes × CAresResolverFuture a)

  -- a resolver that is shared from now on
  abbrev pub start : CAresResolverImpl a → Shared
  start this = record { cache = this.cache; resolver = this.resolver; running = [] }

  abbrev pub shared : Shared → CAresResolverImpl a
  shared w = record { cache = w.cache; resolver = w.resolver }

  -- One call: a lookup is begun, or one of those that run is polled. The instants are any.
  pub data Calls (w : Shared) : Shared → Type 0 where
    begins :
        (now : ℕ) (name : Bytes) {w' : Shared}
        → w' ≡ record w { running = (name, resolve a now name (shared w)) ∷ w.running }
        → Calls w w'
    polls :
        (now : ℕ) (before after : List (Bytes × CAresResolverFuture a)) (name : Bytes)
        (fut fut' : CAresResolverFuture a) (p : Poll (IoResult (List IpAddr)))
        (cache' : ResolverCache) {w' : Shared}
        → w.running ≡ before ++ (name, fut) ∷ after
        → poll a now fut w.cache ≡ ok (p, fut', cache')
        → w' ≡ record w { cache = cache'; running = before ++ (name, fut') ∷ after }
        → Calls w w'

  -- what calls in any order lead to
  pub data Reached : Shared → Type 0 where
    at_start :
        (this : CAresResolverImpl a) {w : Shared}
        → new a {E = IoError} ≡ ok this
        → w ≡ start this
        → Reached w
    then_call : {w w' : Shared} → Reached w → Calls w w' → Reached w'

  module _ (law : QueryLaw a) where
    abbrev AllBacked : List (Bytes × CAresResolverFuture a) → Type 0
    AllBacked [] = Unit {0}
    AllBacked (f ∷ fs) = Backed a law f × AllBacked fs

    record Inv (w : Shared) : Type 0 where
      healthy : w.cache.poisoned ≡ false
      kept : Kept a law w.cache.entries
      backed : AllBacked w.running

    AllBacked-member :
        (before after : List (Bytes × CAresResolverFuture a)) (f : Bytes × CAresResolverFuture a)
        → AllBacked (before ++ f ∷ after)
        → Backed a law f
    AllBacked-member [] after f h = h.0
    AllBacked-member (g ∷ before) after f h = AllBacked-member before after f h.1

    AllBacked-replaced :
        (before after : List (Bytes × CAresResolverFuture a)) (f f' : Bytes × CAresResolverFuture a)
        → AllBacked (before ++ f ∷ after)
        → Backed a law f'
        → AllBacked (before ++ f' ∷ after)
    AllBacked-replaced [] after f f' h b = (b, h.1)
    AllBacked-replaced (g ∷ before) after f f' h b =
        (h.0, AllBacked-replaced before after f f' h.1 b)

    Calls-Inv : {w w' : Shared} → Calls w w' → Inv w → Inv w'
    Calls-Inv {w} (begins now name e) i = rw e (record {
      healthy = i.healthy;
      kept = i.kept;
      backed = (resolve-Backed a law now name (shared w) i.kept, i.backed);
    })
    Calls-Inv {w} (polls now before after name fut fut' p cache' r e f) i =
        let all = subst AllBacked r i.backed in
        elim (poll-Polled a law now name w.cache fut i.healthy i.kept
          (AllBacked-member before after (name, fut) all) (poll-live a law now fut w.cache e)) [
            | gives p₁ fut₁ cache₁ m h k b _ ↦
                let same : (fut₁ ≡ fut') × (cache₁ ≡ cache') =
                  (ground (arith, e, m), ground (arith, e, m)) in
                rw f (record {
                  healthy = subst (λ c. c.poisoned ≡ false) same.1 h;
                  kept = subst (λ c. Kept a law c.entries) same.1 k;
                  backed =
                      AllBacked-replaced before after (name, fut) (name, fut') all
                        (subst (λ x. Backed a law (name, x)) same.0 b);
                })
          ]

    -- A new resolver has an empty cache.
    new-default :
        (this : CAresResolverImpl a) → new a {E = IoError} ≡ ok this → this.cache ≡ default
    unfolding new
    new-default this e = elim (Option-cases a.new_resolver) [
      | inl missing ↦ absurd (ground (arith, rw missing at e))
      | inr (resolver, made) ↦ ground (arith, rw made at e)
    ]

    Reached-Inv : {w : Shared} → Reached w → Inv w
    Reached-Inv (at_start this n e) =
        let empty = new-default this n in
        rw e (record {
          healthy = rw empty refl;
          kept = subst (λ c. Kept a law c.entries) (sym empty) tt;
          backed = tt;
        })
    Reached-Inv (then_call r c) = Calls-Inv c (Reached-Inv r)

    -- After any lookups and polls of a new resolver in any order, at any instants, a lookup that
    -- has not given its answer yet is polled without a panic, and what addresses it gives are those
    -- of an answer of the query for its own name, from the cache or not.
    pub Reached-PollResult :
        {w : Shared} (now : ℕ) (before after : List (Bytes × CAresResolverFuture a)) (name : Bytes)
        (fut : CAresResolverFuture a)
        → Reached w
        → w.running ≡ before ++ (name, fut) ∷ after
        → fut ≢ done
        → PollResult a law name (poll a now fut w.cache)
    Reached-PollResult {w} now before after name fut reached r live =
        let i = Reached-Inv reached in
        elim (poll-Polled a law now name w.cache fut i.healthy i.kept
          (AllBacked-member before after (name, fut) (subst AllBacked r i.backed)) live) [
            | gives _ _ _ _ _ _ _ result ↦ result
          ]
