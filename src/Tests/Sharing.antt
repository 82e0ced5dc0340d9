-- ===== src/Tests/Sharing.antt =====
-- Two lookups of src/http/ares.rs that share the cache.
use simple_http.Base.{ℕ, zero, suc, [], ◌∷◌, ◌⊎◌, List, inr, some, ◌≡◌, refl}
use simple_http.Base.Bytes.{Bytes, codes}
use simple_http.Io.{Poll, pending, ready}
use simple_http.Http.Ares.{
  Ares, default, ResolverCache, from_resolver, add, resolve, lookup, get, after_query,
}
use simple_http.Http.Ares
use simple_http.Http.Ares.Polling.{QueryLaw, PollResult}
use simple_http.Http.Ares.Sharing.{
  Shared, start, Reached, at_start, then_call, begins, polls, Reached-PollResult,
}

abbrev poll_one : Bytes × ℕ → Poll (Bytes ⊎ List ℕ) × (Bytes × ℕ)
poll_one (name, suc n) = (pending, (name, n))
poll_one (name, zero) = (ready (inr name), (name, zero))

-- A query answers at the second poll, with the bytes of the name.
abbrev ares : Ares
ares = record {
  FutureResolver = Unit {0};
  new_resolver = some tt;
  AresFuture = Bytes × ℕ;
  query_a = λ resolver name. (name, 1);
  poll_query = poll_one;
}

waits_same :
    (fut fut' : Bytes × ℕ) (name : Bytes)
    → fut.0 ≡ name
    → poll_one fut ≡ (pending, fut')
    → fut'.0 ≡ name
waits_same (n, suc k) fut' name h e = cc
waits_same (n, zero) fut' name h e = absurd cc

answers_same :
    (fut fut' : Bytes × ℕ) (name : Bytes) (vals : List ℕ)
    → fut.0 ≡ name
    → poll_one fut ≡ (ready (inr vals), fut')
    → vals ≡ name
answers_same (n, suc k) fut' name vals h e = absurd cc
answers_same (n, zero) fut' name vals h e = cc

abbrev query_law : QueryLaw ares
query_law = record {
  Asks = λ fut name. fut.0 ≡ name;
  Answered = λ name vals. vals ≡ name;
  begun = λ resolver name. refl;
  waits = waits_same;
  answers = answers_same;
}

-- The lookup of g is begun while that of h waits.
abbrev both : Shared ares
both = record {
  cache = default;
  resolver = tt;
  running =
      (codes "g", from_resolver (codes "g", 1) (codes "g"))
      ∷ (codes "h", from_resolver (codes "h", 0) (codes "h"))
      ∷ [];
}

abbrev one : ℕ → Shared ares
one n = record {
  cache = default;
  resolver = tt;
  running = (codes "h", from_resolver (codes "h", n) (codes "h")) ∷ [];
}

both-Reached : Reached ares both
unfolding Ares.new resolve lookup get Ares.poll after_query
both-Reached =
    then_call {w = one 0}
      (then_call {w = one 1}
        (then_call {w = start ares (record { cache = default; resolver = tt })}
          (at_start (record { cache = default; resolver = tt }) refl refl)
          (begins 3 (codes "h") refl))
        (polls 4 [] [] (codes "h") (from_resolver (codes "h", 1) (codes "h"))
          (from_resolver (codes "h", 0) (codes "h")) pending (one 0).cache refl refl refl))
      (begins 5 (codes "g") refl)

Reached-PollResult_example :
    PollResult ares query_law
      (codes "h")
      (Ares.poll ares 9 (from_resolver (codes "h", 0) (codes "h")) both.cache)
Reached-PollResult_example =
    Reached-PollResult ares query_law 9 ((codes "g", from_resolver (codes "g", 1) (codes "g")) ∷ [])
      [] (codes "h") (from_resolver (codes "h", 0) (codes "h")) both-Reached refl (λ e. cc)
