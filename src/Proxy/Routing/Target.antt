-- ===== src/Proxy/Routing/Target.antt =====
-- The destination that src/proxy/mod.rs makes for a proxy, by the setters of src/connect.rs.
use simple_http.Base.{
  ℕ, ◌<◌, Option, none, some, ◌++◌, ◌≡◌, ◌∙◌, refl, sym, inl, inr, arith, Bool-cases, ok, ok_parts,
  unwrap-ok, unwrap,
}
use simple_http.Base.Bytes.{Bytes, codes}
use simple_http.Base.Text.{show_nat}
use simple_http.Io.{IoError}
use simple_http.Uri.{HttpTypes}
use simple_http.Base.Search.{contains}
use simple_http.Connect.{
  Destination, SetResult, set, parse_error, host, port, update_uri, store, set_parsed_scheme,
  set_scheme, authority_for, set_authority, set_host, port_authority, expect_set, set_port_opt,
}
use simple_http.Proxy.Routing.{proxy_dst, put_scheme, put_host, or_io_err}

-- What is documented of the URIs: a port is a number of 16 bits, a printed port is the port of the
-- authority, a host alone names no port, and parts that are put into a URI are found in it.
pub record PartsLaw (h : HttpTypes) : Type 0 where
  pub small : (u : h.Uri) (p : ℕ) → h.port_u16 u ≡ some p → p < 65536
  pub bare :
      (d : Destination h) (a : h.Authority)
      → h.parse_authority (host h d) ≡ some a
      → h.authority_port a ≡ none
  pub printed :
      (s : Bytes) (p : ℕ) (a : h.Authority)
      → p < 65536
      → h.parse_authority (s ++ (codes ":" ++ show_nat p)) ≡ some a
      → h.authority_port a ≡ some p
  pub put_authority :
      (u u' : h.Uri) (a : h.Authority)
      → h.from_parts (h.with_authority a (h.into_parts u)) ≡ some u'
      → (h.port_u16 u' ≡ h.authority_port a) × (h.scheme_part u' ≡ h.scheme_part u)
  pub put_scheme :
      (v u u' : h.Uri) (text : Bytes) (s : h.Scheme)
      → h.scheme_part v ≡ some text
      → h.parse_scheme text ≡ some s
      → h.from_parts (h.with_scheme s (h.into_parts u)) ≡ some u'
      → h.scheme_part u' ≡ some text

module _ (h : HttpTypes) where
  store-set :
      (old : h.Uri) (this d : Destination h) (o : Option h.Uri)
      → store h old this o ≡ (set, d)
      → o ≡ some d.uri
  store-set old this d none e = absurd cc
  store-set old this d (some uri) e = ground arith

  -- An update that is made is one of the parts.
  update_uri-set :
      (f : h.Parts → h.Parts) (this d : Destination h)
      → update_uri h f this ≡ (set, d)
      → h.from_parts (f (h.into_parts this.uri)) ≡ some d.uri
  unfolding update_uri
  update_uri-set f this d e =
      store-set this.uri (record { uri = h.default_uri }) d
        (h.from_parts (f (h.into_parts this.uri))) e

  not_set :
      (this d : Destination h)
      → ¬ (◌≡◌ {A = SetResult × Destination h} (parse_error, this) (set, d))
  not_set this d e = absurd cc

  expect_set-ok :
      (r : SetResult × Destination h) {d : Destination h}
      → expect_set h {E = IoError} r ≡ ok d
      → r ≡ (set, d)
  expect_set-ok (set, d') e = ground arith
  expect_set-ok (parse_error, d') e = absurd cc

module _ (h : HttpTypes) (law : PartsLaw h) (HeaderMap : Type 0) where
  or_io_err-ok :
      (r : SetResult × Destination h) {d : Destination h}
      → or_io_err h HeaderMap r ≡ ok d
      → r ≡ (set, d)
  or_io_err-ok (set, d') e = ground arith
  or_io_err-ok (parse_error, d') e = absurd cc

  set_parsed_scheme-scheme :
      (v : h.Uri) (this d : Destination h) (text : Bytes) (o : Option h.Scheme)
      → h.scheme_part v ≡ some text
      → h.parse_scheme text ≡ o
      → set_parsed_scheme h this o ≡ (set, d)
      → h.scheme_part d.uri ≡ some text
  set_parsed_scheme-scheme v this d text none e p r = absurd cc
  set_parsed_scheme-scheme v this d text (some s) e p r =
      law.put_scheme v this.uri d.uri text s e p (update_uri-set h (h.with_scheme s) this d r)

  put_scheme-scheme :
      (shown : Bytes) (v : h.Uri) (this d : Destination h) (o : Option Bytes)
      → h.scheme_part v ≡ o
      → put_scheme h HeaderMap shown this o ≡ ok d
      → h.scheme_part d.uri ≡ h.scheme_part v
  unfolding set_scheme
  put_scheme-scheme shown v this d none e r = absurd cc
  put_scheme-scheme shown v this d (some text) e r =
      set_parsed_scheme-scheme v this d text (h.parse_scheme text) e refl (or_io_err-ok _ r) ∙ sym e

  set_authority-scheme :
      (this d : Destination h) (o : Option h.Authority)
      → set_authority h this o ≡ (set, d)
      → h.scheme_part d.uri ≡ h.scheme_part this.uri
  set_authority-scheme this d none e = absurd cc
  set_authority-scheme this d (some a) e =
      (law.put_authority this.uri d.uri a (update_uri-set h (h.with_authority a) this d e)).1

  set_host-scheme :
      (s : Bytes) (this d : Destination h)
      → set_host h s this ≡ (set, d)
      → h.scheme_part d.uri ≡ h.scheme_part this.uri
  unfolding set_host
  set_host-scheme s this d e = elim (Bool-cases (contains b'@' s)) [
    | inl sign ↦ absurd (not_set h this d (rw sign at e))
    | inr free ↦ set_authority-scheme this d (authority_for h s (port h this)) (rw free at e)
  ]

  put_host-scheme :
      (shown : Bytes) (this d : Destination h) (o : Option Bytes)
      → put_host h HeaderMap shown this o ≡ ok d
      → h.scheme_part d.uri ≡ h.scheme_part this.uri
  put_host-scheme shown this d none r = absurd cc
  put_host-scheme shown this d (some s) r = set_host-scheme s this d (or_io_err-ok _ r)

  set_port_opt-port :
      (o : Option ℕ) (this d : Destination h)
      → ((p : ℕ) → o ≡ some p → p < 65536)
      → set_port_opt h {E = IoError} o this ≡ ok d
      → (port h d ≡ o) × (h.scheme_part d.uri ≡ h.scheme_part this.uri)
  unfolding set_port_opt port
  set_port_opt-port none this d small r =
      let (a, e, f) = ok_parts (unwrap (port_authority h (host h this) none)) _ r in
      let (q, s) =
        law.put_authority this.uri d.uri a
          (update_uri-set h (h.with_authority a) this d (expect_set-ok h _ f)) in
      (q ∙ law.bare this a (unwrap-ok _ e), s)
  set_port_opt-port (some p) this d small r =
      let (a, e, f) = ok_parts (unwrap (port_authority h (host h this) (some p))) _ r in
      let (q, s) =
        law.put_authority this.uri d.uri a
          (update_uri-set h (h.with_authority a) this d (expect_set-ok h _ f)) in
      (q ∙ law.printed (host h this) p a (small p refl) (unwrap-ok _ e), s)

  -- The destination that is made for a proxy has the scheme and the port of the proxy's URI, and no
  -- port where that names none, whatever port and scheme the destination has had.
  pub proxy_dst-port :
      (shown : Bytes) (dst d : Destination h) (proxy : h.Uri)
      → proxy_dst h HeaderMap shown dst proxy ≡ ok d
      → (port h d ≡ h.port_u16 proxy) × (h.scheme_part d.uri ≡ h.scheme_part proxy)
  unfolding proxy_dst
  proxy_dst-port shown dst d proxy r =
      let (d₁, s₁, r₁) = ok_parts _ _ r in
      let (d₂, s₂, r₂) = ok_parts _ _ r₁ in
      let (q, s₃) = set_port_opt-port (h.port_u16 proxy) d₂ d (law.small proxy) r₂ in
      (
        q,
        s₃
            ∙ (put_host-scheme shown d₁ d₂ (h.host proxy) s₂
                ∙ put_scheme-scheme shown proxy dst d₁ (h.scheme_part proxy) refl s₁),
      )
