-- ===== src/Proxy/Routing/Choice.antt =====
-- Which proxy src/proxy/mod.rs chooses.
use simple_http.Base.{
  ap, refl, ℕ, Bool, ◌↔◌, true, false, Option, none, some, List, [], ◌∷◌, ◌++◌, ◌≡◌, inl, inr,
  Bool-cases,
}
use simple_http.Base.Bytes.{Bytes, codes, bytes_eq_iff}
use simple_http.Uri.{HttpTypes}
use simple_http.Proxy.Routing.{
  Intercept, all, http, https, nothing, custom, names, Dst, matches, Proxy, match_proxy,
}

module _ (h : HttpTypes) (HeaderMap : Type 0) where
  -- What a filter takes: everything, the destinations of one scheme, or those that its function
  -- takes.
  pub data Takes (uri : Dst) : Intercept → Type 0 where
    any_scheme : Takes uri all
    the_http : uri.scheme ≡ some (codes "http") → Takes uri http
    the_https : uri.scheme ≡ some (codes "https") → Takes uri https
    by_function :
        (f : Option Bytes → Option Bytes → Option ℕ → Bool)
        → f uri.scheme uri.host uri.port ≡ true
        → Takes uri (custom f)

  names_iff : (s : Bytes) (o : Option Bytes) → (names s o ≡ true) ↔ (o ≡ some s)
  names_iff s none = (λ e. absurd cc, λ e. absurd cc)
  names_iff s (some x) = (λ e. ap some ((bytes_eq_iff x s).0 e), λ e. (bytes_eq_iff x s).1 cc)

  matches-Takes : (i : Intercept) (uri : Dst) → matches i uri ≡ true → Takes uri i
  unfolding matches
  matches-Takes all uri e = any_scheme
  matches-Takes http uri e = the_http ((names_iff (codes "http") uri.scheme).0 e)
  matches-Takes https uri e = the_https ((names_iff (codes "https") uri.scheme).0 e)
  matches-Takes nothing uri e = absurd cc
  matches-Takes (custom f) uri e = by_function f e

  Takes-matches : (i : Intercept) (uri : Dst) → Takes uri i → matches i uri ≡ true
  unfolding matches
  Takes-matches i uri any_scheme = refl
  Takes-matches i uri (the_http e) = (names_iff (codes "http") uri.scheme).1 e
  Takes-matches i uri (the_https e) = (names_iff (codes "https") uri.scheme).1 e
  Takes-matches i uri (by_function f e) = e

  not_Takes : (i : Intercept) (uri : Dst) → matches i uri ≡ false → ¬ (Takes uri i)
  not_Takes i uri e w = let m = Takes-matches i uri w in absurd cc

  -- No proxy of the list takes the destination.
  pub data PassesBy (uri : Dst) : List (Proxy h HeaderMap) → Type 0 where
    no_proxy : PassesBy uri []
    not_this :
        (p : Proxy h HeaderMap) {ps : List (Proxy h HeaderMap)}
        → ¬ (Takes uri p.intercept)
        → PassesBy uri ps
        → PassesBy uri (p ∷ ps)

  -- The choice: the first proxy of the list that takes the destination, or none if all pass.
  pub data Chosen (uri : Dst) : List (Proxy h HeaderMap) → Option (Proxy h HeaderMap) → Type 0 where
    direct : {ps : List (Proxy h HeaderMap)} → PassesBy uri ps → Chosen uri ps none
    through :
        {before : List (Proxy h HeaderMap)} (p : Proxy h HeaderMap)
        (after : List (Proxy h HeaderMap))
        → PassesBy uri before
        → Takes uri p.intercept
        → Chosen uri (before ++ p ∷ after) (some p)

  Chosen-not_this :
      (uri : Dst) (p : Proxy h HeaderMap) {ps : List (Proxy h HeaderMap)}
      {o : Option (Proxy h HeaderMap)}
      → ¬ (Takes uri p.intercept)
      → Chosen uri ps o
      → Chosen uri (p ∷ ps) o
  Chosen-not_this uri p e (direct b) = direct (not_this p e b)
  Chosen-not_this uri p e (through {before = before} q after b m) =
      through {before = p ∷ before} q after (not_this p e b) m

  -- The proxy that is chosen for a destination is the first of the list whose filter takes it, by
  -- its scheme or its function, and none is chosen if no filter takes it.
  pub match_proxy-Chosen :
      (ps : List (Proxy h HeaderMap)) (uri : Dst) → Chosen uri ps (match_proxy h HeaderMap ps uri)
  unfolding match_proxy
  match_proxy-Chosen [] uri = direct no_proxy
  match_proxy-Chosen (p ∷ ps) uri = elim (Bool-cases (matches p.intercept uri)) [
    | inl e ↦ rw e (through {before = []} p ps no_proxy (matches-Takes p.intercept uri e))
    | inr e ↦ rw e (Chosen-not_this uri p (not_Takes p.intercept uri e) (match_proxy-Chosen ps uri))
  ]
