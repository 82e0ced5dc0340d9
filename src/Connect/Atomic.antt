-- ===== src/Connect/Atomic.antt =====
-- What the setters of src/connect.rs leave behind.
use simple_http.Base.{
  Bool, true, false, ℕ, ◌∙◌, sym, Option, none, some, ◌≡◌, ◌++◌, refl, ap, subst, arith, Bool-cases,
  Option-cases, inl, inr,
}
use simple_http.Base.Bytes.{Bytes, codes}
use simple_http.Base.Text.{show_nat}
use simple_http.Uri.{HttpTypes}
use simple_http.Base.Search.{contains}
use simple_http.Connect.{
  SetResult, set, parse_error, Destination, update_uri, set_parsed_scheme, set_scheme, without_port,
  authority_for, set_authority, set_host, port,
}

not_given : {A : Type 0} {o : Option A} {a : A} → o ≡ none → o ≡ some a → ⊥
not_given e f = cc

some_same : {A : Type 0} {a b : A} → ◌≡◌ {A = Option A} (some a) (some b) → a ≡ b
some_same e = cc

not_both : {b : Bool} → b ≡ true → b ≡ false → ⊥
not_both e f = cc

module _ (h : HttpTypes) where
  -- How a setter may end: with an error, the destination as it was, where no change of the wanted
  -- kind gives a URI; or with success, the URI made of the old parts with one change of that kind.
  pub data Atomic (this : Destination h) (change : h.Parts → h.Parts → Type 0)
      (r : SetResult × Destination h) : Type 0 where
    kept :
        ((parts : h.Parts) → change (h.into_parts this.uri) parts → h.from_parts parts ≡ none)
        → r ≡ (parse_error, this)
        → Atomic this change r
    made :
        (parts : h.Parts) (uri : h.Uri)
        → change (h.into_parts this.uri) parts
        → h.from_parts parts ≡ some uri
        → r ≡ (set, record { uri = uri })
        → Atomic this change r

  -- the scheme of the parts is the one that the text names
  abbrev pub NamesScheme : Bytes → h.Parts → h.Parts → Type 0
  NamesScheme s old parts =
      (a : h.Scheme) × (h.parse_scheme s ≡ some a) × (parts ≡ h.with_scheme a old)

  -- The authority is the text with the old port printed behind it; where there was no port, it is
  -- the text, which names none.
  pub data Authority (s : Bytes) (a : h.Authority) : Option ℕ → Type 0 where
    with_port :
        (n : ℕ)
        → h.parse_authority (s ++ (codes ":" ++ show_nat n)) ≡ some a
        → Authority s a (some n)
    bare : h.parse_authority s ≡ some a → h.authority_port a ≡ none → Authority s a none

  -- the authority of the parts is such a one, of a text with no @
  abbrev pub NamesHost : Bytes → Option ℕ → h.Parts → h.Parts → Type 0
  NamesHost s p old parts =
      (a : h.Authority) × (contains b'@' s ≡ false)
      × Authority s a p
      × (parts ≡ h.with_authority a old)

  without_port-ok :
      (o : Option h.Authority) (a : h.Authority)
      → without_port h o ≡ some a
      → (o ≡ some a) × (h.authority_port a ≡ none)
  without_port-ok none a e = absurd cc
  without_port-ok (some b) a e = elim (Option-cases (h.authority_port b)) [
    | inl n ↦
        let same : b ≡ a = ground (arith, rw (n, without_port) at e) in
        (ap some same, subst (λ x. h.authority_port x ≡ none) same n)
    | inr (q, n) ↦ absurd (ground (arith, rw (n, without_port) at e))
  ]

  authority_for-Authority :
      (s : Bytes) (p : Option ℕ) (a : h.Authority) → authority_for h s p ≡ some a → Authority s a p
  authority_for-Authority s (some n) a e = with_port n e
  authority_for-Authority s none a e =
      let (e₁, e₂) = without_port-ok (h.parse_authority s) a e in bare e₁ e₂

  Authority-authority_for :
      (s : Bytes) (p : Option ℕ) (a : h.Authority) → Authority s a p → authority_for h s p ≡ some a
  Authority-authority_for s p a (with_port n e) = e
  Authority-authority_for s p a (bare e n) = rw e (rw (n, without_port) refl)

  update_uri-Atomic :
      (change : h.Parts → h.Parts → Type 0) (f : h.Parts → h.Parts) (this : Destination h)
      → change (h.into_parts this.uri) (f (h.into_parts this.uri))
      → ((parts : h.Parts)
          → change (h.into_parts this.uri) parts
          → parts ≡ f (h.into_parts this.uri))
      → Atomic this change (update_uri h f this)
  unfolding update_uri
  update_uri-Atomic change f this c only =
      elim (Option-cases (h.from_parts (f (h.into_parts this.uri)))) [
        | inl n ↦ rw n (kept (λ parts w. ap h.from_parts (only parts w) ∙ n) refl)
        | inr (uri, s) ↦ rw s (made _ uri c s refl)
      ]

  set_parsed_scheme-Atomic :
      (s : Bytes) (this : Destination h) (o : Option h.Scheme)
      → h.parse_scheme s ≡ o
      → Atomic this (NamesScheme s) (set_parsed_scheme h this o)
  set_parsed_scheme-Atomic s this none e = kept (λ parts w. absurd (not_given e w.1)) refl
  set_parsed_scheme-Atomic s this (some a) e =
      update_uri-Atomic (NamesScheme s) (h.with_scheme a) this (a, e, refl)
        (λ parts w.
          w.2 ∙ ap (λ x. h.with_scheme x (h.into_parts this.uri)) (some_same (sym w.1 ∙ e)))

  set_authority-Atomic :
      (s : Bytes) (p : Option ℕ) (this : Destination h) (o : Option h.Authority)
      → contains b'@' s ≡ false
      → authority_for h s p ≡ o
      → Atomic this (NamesHost s p) (set_authority h this o)
  set_authority-Atomic s p this none c e =
      kept (λ parts w. absurd (not_given e (Authority-authority_for s p w.0 w.2))) refl
  set_authority-Atomic s p this (some a) c e =
      update_uri-Atomic (NamesHost s p) (h.with_authority a) this
        (a, c, authority_for-Authority s p a e, refl)
        (λ parts w.
          w.3
          ∙ ap (λ x. h.with_authority x (h.into_parts this.uri))
              (some_same (sym (Authority-authority_for s p w.0 w.2) ∙ e)))

  -- The setters of scheme and host are atomic: one that fails leaves the destination as it was, and
  -- fails only where no such change gives a URI; one that succeeds changes that part only. The new
  -- authority is the new host with the old port printed behind it, or the new host alone, which then
  -- names no port. A host with an @ is never set.
  pub set_host-Atomic :
      (s : Bytes) (this : Destination h)
      → Atomic this (NamesScheme s) (set_scheme h s this)
        × Atomic this (NamesHost s (port h this)) (set_host h s this)
  unfolding set_scheme set_host
  set_host-Atomic s this = (
    set_parsed_scheme-Atomic s this (h.parse_scheme s) refl,
    elim (Bool-cases (contains b'@' s)) [
      | inl e ↦ rw e (kept (λ parts w. absurd (not_both e w.1)) refl)
      | inr e ↦
          rw e (set_authority-Atomic s (port h this) this (authority_for h s (port h this)) e refl)
    ],
  )
